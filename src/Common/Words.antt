-- ===== src/Common/Words.antt =====
-- Machine words: unsigned integers that wrap, and the flag words of the source.
-- A mask is a power of two, so `flag & mask` asks for one binary digit, and `flag |= mask` and
-- `flag &= ~mask` set and clear it.
use Prim.Native.Nat.{ℕ, zero, suc, ◌+◌, ◌-◌, ◌/◌, ◌%◌}
use mathlib.Core.Bool.{Bool}
use mathlib.Core.List.{List, [], ◌∷◌}
use hudp.Common.Tests.{◌==◌, if◌then◌else◌}

abbrev pub u8 : ℕ → ℕ
u8 n = n % 256

abbrev pub u16 : ℕ → ℕ
u16 n = n % 65536

abbrev pub u32 : ℕ → ℕ
u32 n = n % 4294967296

abbrev pub u64 : ℕ → ℕ
u64 n = n % 18446744073709551616

-- Subtraction of unsigned words wraps.
abbrev pub sub16 : ℕ → ℕ → ℕ
sub16 a b = (a + 65536 - b) % 65536

abbrev pub sub32 : ℕ → ℕ → ℕ
sub32 a b = (a + 4294967296 - b) % 4294967296

abbrev pub sub64 : ℕ → ℕ → ℕ
sub64 a b = (a + 18446744073709551616 - b) % 18446744073709551616

-- `flag & mask`, as a condition.
abbrev pub has : ℕ → ℕ → Bool
has flag mask = flag / mask % 2 == 1

-- `flag |= mask`.
abbrev pub with_bit : ℕ → ℕ → ℕ
with_bit flag mask = if has flag mask then flag else flag + mask

-- `flag &= ~mask`.
abbrev pub without_bit : ℕ → ℕ → ℕ
without_bit flag mask = if has flag mask then flag - mask else flag

-- `n` ids one after another, as 16-bit words.
abbrev pub ids_from : ℕ → ℕ → List ℕ
ids_from id zero = []
ids_from id (suc n) = u16 id ∷ ids_from (id + 1) n
