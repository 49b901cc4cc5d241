-- ===== src/Rto.antt =====
-- The retransmission timeout of common/Rto.h and common/Rto.cpp, with its mixture of signed and
-- unsigned 32-bit arithmetic written out.
mod Tests
pub mod Deviation
use hudp.Common.{ℕ, ◌+◌, ◌-◌, ◌*◌, ◌/◌, Bool, ltb, ◌==◌, if◌then◌else◌, u32, sub32, sub64}
use hudp.Config.{init_mdev_max, init_cur_rto}

pub record Rto : Type 0 where
  pub srtt : ℕ
  pub mdev : ℕ
  pub mdev_max : ℕ
  pub cur_rto : ℕ

abbrev pub new_rto : Rto
new_rto = record {
  srtt = 0;
  mdev = init_mdev_max;
  mdev_max = init_mdev_max;
  cur_rto = init_cur_rto;
}

-- An `int32_t` is kept as its bit pattern; this tests its sign.
abbrev pub is_negative : ℕ → Bool
is_negative x = ltb 2147483647 x

-- `std::abs` of an `int32_t`, as a bit pattern.
abbrev pub abs32 : ℕ → ℕ
abs32 x = if is_negative x then 4294967296 - x else x

-- `G(x)` on an `int32_t`: an arithmetic shift by 3, which fills with the sign.
abbrev pub g : ℕ → ℕ
g x = if is_negative x then 4294967295 - (4294967295 - x) / 8 else x / 8

-- `H(x)` on the `uint32_t` that `(int32_t)abs(err) - _mdev` is, since `_mdev` is unsigned: a
-- logical shift by 2.
abbrev pub h : ℕ → ℕ
h x = x / 4

-- The error of a sample, `(uint32_t)(rtt - _srtt)` read as an `int32_t`.
abbrev pub sample_error : ℕ → Rto → ℕ
sample_error rtt r = u32 (sub64 rtt r.srtt)

unfoldable pub update_srtt : ℕ → Rto → ℕ
update_srtt rtt r = if r.srtt == 0 then u32 rtt else u32 (r.srtt + g (sample_error rtt r))

unfoldable pub update_mdev : ℕ → Rto → ℕ
update_mdev rtt r =
    if r.srtt == 0
    then u32 rtt / 2
    else u32 (r.mdev + h (sub32 (abs32 (sample_error rtt r)) r.mdev))

unfoldable pub set_rtt_time : ℕ → Rto → Rto
unfolding update_srtt update_mdev
set_rtt_time rtt r =
    let srtt = update_srtt rtt r in
    let mdev = update_mdev rtt r in
    let mdev_max = if ltb r.mdev_max mdev then mdev else r.mdev_max in
    record { srtt = srtt; mdev = mdev; mdev_max = mdev_max; cur_rto = u32 (srtt + 4 * mdev_max) }

unfoldable pub get_rto : Rto → ℕ
get_rto r = r.cur_rto
