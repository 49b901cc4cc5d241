-- ===== src/Serializes/ReadAcks.antt =====
-- The parser of common/Serializes.cpp on a block of acks.
use hudp.Common.{
  ℕ, suc, ◌<◌, ◌≡◌, refl, sym, subst, Bool, true, false, Option, some, List, [], ◌∷◌, arith,
  if◌then◌else◌, ◌>>=◌, length, get_or, ids_from, append-nil, append_assoc,
}
use hudp.Config.{}
use hudp.BitStream.{BitStream, read_word, to_bytes}
use hudp.BitStream.Reader.{Reads, read_word-Reads, return-Reads, bind-Reads}
use hudp.Serializes.{read_each, read_acks}
use hudp.Serializes.Encoding.{words, encode_acks, AllBelow, IsSendableAcks}

-- A step whose value is changed by a function.
pub map-Reads {ℓ κ} :
    {A : Type ℓ} {B : Type κ} (f : BitStream → Option (A × BitStream)) (xs : List ℕ) (a : A)
    (g : A → B)
    → Reads f xs a
    → Reads (λ s. f s >>= λ r. some (g r.0, r.1)) xs (g a)
map-Reads f xs a g rf =
    subst (λ ys. Reads (λ s. f s >>= λ r. some (g r.0, r.1)) ys (g a)) (append-nil xs)
      (bind-Reads f (λ a s. some (g a, s)) xs [] a (g a) rf (return-Reads (g a)))

pub choose-Reads {ℓ} :
    {A : Type ℓ} (b : Bool) (f g : BitStream → Option (A × BitStream)) (xs ys : List ℕ) (a c : A)
    → (b ≡ true → Reads f xs a)
    → (b ≡ false → Reads g ys c)
    → Reads (λ s. if b then f s else g s) (if b then xs else ys) (if b then a else c)
choose-Reads true f g xs ys a c rf rg = rf refl
choose-Reads false f g xs ys a c rf rg = rg refl

read_each-Reads :
    (width bound : ℕ) (vec : List ℕ)
    → ((v : ℕ) → v < bound → Reads (read_word width) (to_bytes width v) v)
    → AllBelow bound vec
    → Reads (read_each width (length vec)) (words width vec) vec
unfolding read_each
read_each-Reads width bound [] word b = return-Reads []
read_each-Reads width bound (v ∷ vec) word b =
    bind-Reads (read_word width)
      (λ v s. read_each width (length vec) s >>= λ t. some (v ∷ t.0, t.1)) _ _ v (v ∷ vec)
      (word v b.0)
      (map-Reads (read_each width (length vec)) (words width vec) vec (λ t. v ∷ t)
        (read_each-Reads width bound vec word b.1))

pub word2 : (v : ℕ) → v < 65536 → Reads (read_word 2) (to_bytes 2 v) v
word2 v h = read_word-Reads 2 v h

pub word8 : (v : ℕ) → v < 18446744073709551616 → Reads (read_word 8) (to_bytes 8 v) v
word8 v h = read_word-Reads 8 v h

times-Reads :
    (timed : Bool) (n : ℕ) (times : List ℕ)
    → (timed ≡ true → length times ≡ n)
    → (timed ≡ false → times ≡ [])
    → AllBelow 18446744073709551616 times
    → Reads
        (λ s. if timed then read_each 8 n s else some ([], s))
        (if timed then words 8 times else [])
        times
times-Reads true n times h h' b =
    subst (λ n. Reads (read_each 8 n) (words 8 times) times) (h refl)
      (read_each-Reads 8 18446744073709551616 times word8 b)
times-Reads false n times h h' b =
    subst (λ t. Reads (λ s. some ([], s)) [] t) (sym (h' refl)) (return-Reads [])

ids-Reads :
    (range : Bool) (acks : List ℕ)
    → (range ≡ true → acks ≡ ids_from (get_or acks 0 0) (length acks))
    → AllBelow 65536 acks
    → 0 < length acks
    → Reads
        (λ s.
          if range
          then (read_word 2 s >>= λ tmp. some (ids_from tmp.0 (length acks), tmp.1))
          else read_each 2 (length acks) s)
        (if range then to_bytes 2 (get_or acks 0 0) else words 2 acks)
        acks
ids-Reads range [] run b pos = absurd (omega arith)
ids-Reads true (id ∷ acks) run b pos =
    subst
      (λ v.
        Reads (λ s. read_word 2 s >>= λ tmp. some (ids_from tmp.0 (suc (length acks)), tmp.1))
          (to_bytes 2 id) v)
      (sym (run refl))
      (map-Reads (read_word 2) (to_bytes 2 id) id (λ tmp. ids_from tmp (suc (length acks)))
        (word2 id b.0))
ids-Reads false acks run b pos = read_each-Reads 2 65536 acks word2 b

pub read_acks-Reads :
    (flagged range timed : Bool) (acks times : List ℕ)
    → flagged ≡ true
    → IsSendableAcks flagged range timed acks times
    → Reads (read_acks range timed) (encode_acks range timed acks times) (acks, times)
unfolding read_acks
read_acks-Reads flagged range timed acks times up a =
    subst (λ bytes. Reads (read_acks range timed) bytes (acks, times))
      (sym (
        append_assoc (to_bytes 2 (length acks))
          (if range then to_bytes 2 (get_or acks 0 0) else words 2 acks)
          (if timed then words 8 times else [])))
      (bind-Reads (read_word 2)
        (λ len s.
          (if range
            then (read_word 2 s >>= λ tmp. some (ids_from tmp.0 len, tmp.1))
            else read_each 2 len s)
          >>= λ acks. (if timed then read_each 8 len acks.1 else some ([], acks.1)) >>= λ times.
              some ((acks.0, times.0), times.1))
        _ _ (length acks) (acks, times) (word2 (length acks) a.short)
        (bind-Reads
          (λ s.
            if range
            then (read_word 2 s >>= λ tmp. some (ids_from tmp.0 (length acks), tmp.1))
            else read_each 2 (length acks) s)
          (λ acks' s. (if timed then read_each 8 (length acks) s else some ([], s)) >>= λ times.
            some ((acks', times.0), times.1))
          _ _ acks (acks, times) (ids-Reads range acks a.run a.ids_in (a.present up))
          (map-Reads (λ s. if timed then read_each 8 (length acks) s else some ([], s)) _ times
            (λ times. (acks, times))
            (times-Reads timed (length acks) times (a.with_times up) a.without_times a.times_in))))
