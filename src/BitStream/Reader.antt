-- ===== src/BitStream/Reader.antt =====
-- What a sequence of reads takes from the stream of common/BitStream.cpp.
use hudp.Common.{
  ℕ, zero, suc, ◌+◌, ◌/◌, ◌^◌, ◌<◌, ◌≡◌, refl, sym, ap, ◌∙◌, subst, Option, some, List, [], ◌++◌,
  append_assoc, arith, length, take, drop, length-append, ◌>>=◌, take-append, drop-append,
  drop-drop,
}
use native.Mathlib.Nat.{pow-suc}
use hudp.BitStream.{BitStream, read, read_word, to_bytes, of_bytes}
use hudp.BitStream.Writer.{length-to_bytes}

-- The bytes that are still to be read, with whatever lies behind them in the buffer.
pub record Left (s : BitStream) (bytes : List ℕ) : Type 0 where
  pub junk : List ℕ
  pub content : drop s.cur_point s.data_buf ≡ bytes ++ junk
  pub count : s.cur_point + length bytes ≡ s.cur_length

-- A step takes these bytes off the front and returns this value.
abbrev pub Reads {ℓ} : {A : Type ℓ} → (BitStream → Option (A × BitStream)) → List ℕ → A → Type ℓ
Reads step bytes value =
    (s : BitStream) (rest : List ℕ)
    → Left s (bytes ++ rest)
    → (s' : BitStream) × (step s ≡ some (value, s')) × Left s' rest

pub read-Reads : (bytes : List ℕ) → Reads (read (length bytes)) bytes bytes
unfolding read
read-Reads bytes s rest left =
    let all = left.content ∙ append_assoc bytes rest left.junk in
    let taken : take (length bytes) (drop s.cur_point s.data_buf) ≡ bytes =
      ap (take (length bytes)) all ∙ take-append bytes (rest ++ left.junk) in
    (
      record s { cur_point = s.cur_point + length bytes },
      ground (arith, taken, left.count, length-append bytes rest),
      record {
        junk = left.junk;
        content =
            sym (drop-drop (length bytes) s.cur_point s.data_buf)
            ∙ (ap (drop (length bytes)) (left.content ∙ append_assoc bytes rest left.junk)
                ∙ drop-append bytes (rest ++ left.junk));
        count = omega (arith, left.count, length-append bytes rest);
      },
    )

pub of_bytes-to_bytes : (n value : ℕ) → value < 256 ^ n → of_bytes (to_bytes n value) ≡ value
unfolding of_bytes to_bytes
of_bytes-to_bytes zero value h = omega arith
of_bytes-to_bytes (suc n) value h =
    omega (arith, of_bytes-to_bytes n (value / 256) (omega (arith, pow-suc 256 n)))

pub read_word-Reads : (n value : ℕ) → value < 256 ^ n → Reads (read_word n) (to_bytes n value) value
unfolding read_word
read_word-Reads n value h s rest left =
    let (s', e, l) = read-Reads (to_bytes n value) s rest left in
    (s', ground (arith, e, length-to_bytes n value, of_bytes-to_bytes n value h), l)

pub return-Reads {ℓ} : {A : Type ℓ} (a : A) → Reads (λ s. some (a, s)) [] a
return-Reads a s rest left = (s, refl, left)

pub bind-Reads {ℓ κ} :
    {A : Type ℓ} {B : Type κ} (f : BitStream → Option (A × BitStream))
    (g : A → BitStream → Option (B × BitStream)) (xs ys : List ℕ) (a : A) (b : B)
    → Reads f xs a
    → Reads (g a) ys b
    → Reads (λ s. f s >>= λ r. g r.0 r.1) (xs ++ ys) b
bind-Reads f g xs ys a b rf rg s rest left =
    let (s1, e1, l1) = rf s (ys ++ rest) (subst (Left s) (append_assoc xs ys rest) left) in
    let (s2, e2, l2) = rg s1 rest l1 in (s2, ap (λ r. r >>= λ r. g r.0 r.1) e1 ∙ e2, l2)
