-- ===== src/BitStream/Writer.antt =====
-- What a sequence of writes leaves in the stream of common/BitStream.cpp, and when it is refused.
use hudp.Common.{
  ℕ, zero, suc, ◌+◌, ◌/◌, ◌≤◌, ◌<◌, ◌≡◌, refl, sym, ap, ◌∙◌, subst, Bool, true, false, Option, none,
  some, List, [], ◌++◌, append-nil, append_assoc, arith, length, take, overwrite, length-overwrite,
  take-overwrite, length-append, if◌then◌else◌, ◌>>=◌, length-take,
}
use native.Mathlib.Decide.{dec_le}
use hudp.BitStream.{BitStream, write, to_bytes, write_word, new_stream}

-- The stream holds the bytes that were written, and no others.
pub record Holds (s : BitStream) (bytes : List ℕ) : Type 0 where
  pub content : take s.cur_length s.data_buf ≡ bytes
  pub at_end : s.cur_point ≡ s.cur_length
  pub size : length s.data_buf ≡ 440
  pub limit : s.length_limit ≡ 440
  pub count : s.cur_length ≡ length bytes

-- A step appends these bytes if they fit into 440, and is refused if they do not.
abbrev pub Writes : (BitStream → Option BitStream) → List ℕ → Type 0
Writes step bytes =
    (s : BitStream) (before : List ℕ)
    → Holds s before
    → (length before + length bytes ≤ 440
        → (s' : BitStream) × (step s ≡ some s') × Holds s' (before ++ bytes))
      × (440 < length before + length bytes → step s ≡ none)

pub new_stream-Holds : Holds new_stream []
new_stream-Holds = record { content = refl; at_end = refl; size = refl; limit = refl; count = refl }

Holds-le : (s : BitStream) (bytes : List ℕ) → Holds s bytes → length bytes ≤ 440
Holds-le s bytes h = omega (arith, h.size, ap length h.content, length-take s.cur_length s.data_buf)

pub write-Writes : (bytes : List ℕ) → Writes (write bytes) bytes
unfolding write
write-Writes bytes s before h = (
  λ fits. (
    record s {
      data_buf = overwrite s.data_buf s.cur_point bytes;
      cur_point = s.cur_point + length bytes;
      cur_length = s.cur_length + length bytes;
    },
    ground (arith, h),
    record {
      content =
          subst
            (λ i.
              take (s.cur_length + length bytes) (overwrite s.data_buf i bytes) ≡ before ++ bytes)
            (sym h.at_end)
            (take-overwrite s.data_buf s.cur_length bytes (omega (arith, h.size, h.count))
              ∙ ap (λ t. t ++ bytes) h.content);
      at_end = omega (arith, h.at_end);
      size = length-overwrite s.data_buf s.cur_point bytes ∙ h.size;
      limit = h.limit;
      count = omega (arith, h.count, length-append before bytes);
    },
  ),
  λ too_long. ground (arith, h),
)

pub skip-Writes : Writes some []
skip-Writes s before h = (
  λ fits. (s, refl, subst (Holds s) (sym (append-nil before)) h),
  λ too_long. absurd (omega (arith, Holds-le s before h)),
)

pub if-Writes :
    (b : Bool) (step : BitStream → Option BitStream) (bytes : List ℕ)
    → Writes step bytes
    → Writes (λ s. if b then step s else some s) (if b then bytes else [])
if-Writes true step bytes w = w
if-Writes false step bytes w = skip-Writes

pub bind-Writes :
    (f g : BitStream → Option BitStream) (xs ys : List ℕ)
    → Writes f xs
    → Writes g ys
    → Writes (λ s. f s >>= g) (xs ++ ys)
bind-Writes f g xs ys wf wg s before h = (fit, over)
  where
    first :
        length before + length xs ≤ 440
        → (s' : BitStream) × (f s ≡ some s') × Holds s' (before ++ xs)
    first = (wf s before h).0

    fit :
        length before + length (xs ++ ys) ≤ 440
        → (s' : BitStream) × ((f s >>= g) ≡ some s') × Holds s' (before ++ (xs ++ ys))
    fit fits =
        let (s1, e1, h1) = first (omega (arith, length-append xs ys)) in
        let (s2, e2, h2) =
          (wg s1 (before ++ xs) h1).0
            (omega (arith, length-append xs ys, length-append before xs)) in
        (s2, ap (λ r. r >>= g) e1 ∙ e2, subst (Holds s2) (append_assoc before xs ys) h2)

    over : 440 < length before + length (xs ++ ys) → (f s >>= g) ≡ none
    over long = elim (dec_le (length before + length xs) 440) [
      | yes fits ↦
          let (s1, e1, h1) = first fits in
          ap (λ r. r >>= g) e1
          ∙ (wg s1 (before ++ xs) h1).1
              (omega (arith, length-append xs ys, length-append before xs))
      | no longer ↦ ap (λ r. r >>= g) ((wf s before h).1 (omega arith))
    ]

pub length-to_bytes : (n value : ℕ) → length (to_bytes n value) ≡ n
unfolding to_bytes
length-to_bytes zero value = refl
length-to_bytes (suc n) value = ap suc (length-to_bytes n (value / 256))

pub write_word-Writes : (n value : ℕ) → Writes (write_word n value) (to_bytes n value)
unfolding write_word
write_word-Writes n value = write-Writes (to_bytes n value)
