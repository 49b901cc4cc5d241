-- ===== src/Common/Slices.antt =====
-- How taking, dropping, joining and writing over go together on sequences.
use Prim.Native.Nat.{ℕ, zero, suc, ◌+◌, ◌-◌, ◌≤◌}
use mathlib.Core.Path.{◌≡◌, refl, sym, ap, ◌∙◌}
use mathlib.Core.List.{List, [], ◌∷◌, ◌++◌}
use native.Mathlib.Omega.{arith}
use hudp.Common.Lists.{length, take, drop, overwrite}

module _ {ℓ} {A : Type ℓ} where
  pub take_long : (n : ℕ) (xs : List A) → length xs ≤ n → take n xs ≡ xs
  take_long zero [] h = refl
  take_long zero (x ∷ xs) h = absurd (omega arith)
  take_long (suc n) [] h = refl
  take_long (suc n) (x ∷ xs) h = ap (λ t. x ∷ t) (take_long n xs (omega arith))

  pub drop_long : (n : ℕ) (xs : List A) → length xs ≤ n → drop n xs ≡ []
  drop_long zero [] h = refl
  drop_long zero (x ∷ xs) h = absurd (omega arith)
  drop_long (suc n) [] h = refl
  drop_long (suc n) (x ∷ xs) h = drop_long n xs (omega arith)

  pub take-take : (n m : ℕ) (xs : List A) → n ≤ m → take n (take m xs) ≡ take n xs
  take-take zero m xs h = refl
  take-take (suc n) zero xs h = absurd (omega arith)
  take-take (suc n) (suc m) [] h = refl
  take-take (suc n) (suc m) (x ∷ xs) h = ap (λ t. x ∷ t) (take-take n m xs (omega arith))

  pub drop-take : (n m : ℕ) (xs : List A) → drop n (take m xs) ≡ take (m - n) (drop n xs)
  drop-take zero m xs = ap (λ k. take k xs) {x = m} {y = m - 0} (omega arith)
  drop-take (suc n) zero xs =
      ap (λ k. take k (drop (suc n) xs)) {x = 0} {y = 0 - suc n} (omega arith)
  drop-take (suc n) (suc m) [] = sym (take_long (suc m - suc n) [] (omega arith))
  drop-take (suc n) (suc m) (x ∷ xs) =
      drop-take n m xs ∙ ap (λ k. take k (drop n xs)) {x = m - n} {y = suc m - suc n} (omega arith)

  pub take-append_le : (n : ℕ) (xs ys : List A) → n ≤ length xs → take n (xs ++ ys) ≡ take n xs
  take-append_le zero xs ys h = refl
  take-append_le (suc n) [] ys h = absurd (omega arith)
  take-append_le (suc n) (x ∷ xs) ys h = ap (λ t. x ∷ t) (take-append_le n xs ys (omega arith))

  pub take-append_ge :
      (n : ℕ) (xs ys : List A) → length xs ≤ n → take n (xs ++ ys) ≡ xs ++ take (n - length xs) ys
  take-append_ge n [] ys h = ap (λ k. take k ys) {x = n} {y = n - 0} (omega arith)
  take-append_ge zero (x ∷ xs) ys h = absurd (omega arith)
  take-append_ge (suc n) (x ∷ xs) ys h =
      ap (λ t. x ∷ t)
        (take-append_ge n xs ys (omega arith)
          ∙ ap (λ k. xs ++ take k ys) {x = n - length xs} {y = suc n - suc (length xs)}
              (omega arith))

  pub drop-append_le :
      (n : ℕ) (xs ys : List A) → n ≤ length xs → drop n (xs ++ ys) ≡ drop n xs ++ ys
  drop-append_le zero xs ys h = refl
  drop-append_le (suc n) [] ys h = absurd (omega arith)
  drop-append_le (suc n) (x ∷ xs) ys h = drop-append_le n xs ys (omega arith)

  pub drop-append_ge :
      (n : ℕ) (xs ys : List A) → length xs ≤ n → drop n (xs ++ ys) ≡ drop (n - length xs) ys
  drop-append_ge n [] ys h = ap (λ k. drop k ys) {x = n} {y = n - 0} (omega arith)
  drop-append_ge zero (x ∷ xs) ys h = absurd (omega arith)
  drop-append_ge (suc n) (x ∷ xs) ys h =
      drop-append_ge n xs ys (omega arith)
      ∙ ap (λ k. drop k ys) {x = n - length xs} {y = suc n - suc (length xs)} (omega arith)

  -- What a write leaves: the part before it, what was written, the part behind it.
  pub overwrite-split :
      (xs : List A) (i : ℕ) (v : List A)
      → i + length v ≤ length xs
      → overwrite xs i v ≡ take i xs ++ (v ++ drop (i + length v) xs)
  overwrite-split [] zero [] h = refl
  overwrite-split [] zero (y ∷ v) h = absurd (omega arith)
  overwrite-split [] (suc i) v h = absurd (omega arith)
  overwrite-split (x ∷ xs) zero [] h = refl
  overwrite-split (x ∷ xs) zero (y ∷ v) h =
      ap (λ t. y ∷ t) (overwrite-split xs zero v (omega arith))
      ∙ ap (λ k. y ∷ (v ++ drop k (x ∷ xs))) {x = suc (0 + length v)} {y = 0 + suc (length v)}
          (omega arith)
  overwrite-split (x ∷ xs) (suc i) v h =
      ap (λ t. x ∷ t) (overwrite-split xs i v (omega arith))
      ∙ ap (λ k. x ∷ (take i xs ++ (v ++ drop k (x ∷ xs)))) {x = suc (i + length v)}
          {y = suc i + length v} (omega arith)

  pub take-overwrite_le :
      (n : ℕ) (xs : List A) (i : ℕ) (v : List A) → n ≤ i → take n (overwrite xs i v) ≡ take n xs
  take-overwrite_le zero xs i v h = refl
  take-overwrite_le (suc n) [] i v h = refl
  take-overwrite_le (suc n) (x ∷ xs) zero v h = absurd (omega arith)
  take-overwrite_le (suc n) (x ∷ xs) (suc i) v h =
      ap (λ t. x ∷ t) (take-overwrite_le n xs i v (omega arith))

  -- A part that begins behind a write is not touched.
  pub drop-overwrite_ge :
      (n : ℕ) (xs : List A) (i : ℕ) (v : List A)
      → i + length v ≤ n
      → drop n (overwrite xs i v) ≡ drop n xs
  drop-overwrite_ge zero [] i v h = refl
  drop-overwrite_ge zero (x ∷ xs) zero [] h = refl
  drop-overwrite_ge zero (x ∷ xs) zero (y ∷ v) h = absurd (omega arith)
  drop-overwrite_ge zero (x ∷ xs) (suc i) v h = absurd (omega arith)
  drop-overwrite_ge (suc n) [] i v h = refl
  drop-overwrite_ge (suc n) (x ∷ xs) zero [] h = refl
  drop-overwrite_ge (suc n) (x ∷ xs) zero (y ∷ v) h = drop-overwrite_ge n xs zero v (omega arith)
  drop-overwrite_ge (suc n) (x ∷ xs) (suc i) v h = drop-overwrite_ge n xs i v (omega arith)

  -- A part that begins before a write, up to the end of the write.
  pub drop-overwrite_le :
      (n : ℕ) (xs : List A) (i : ℕ) (v : List A)
      → n ≤ i
      → drop n (overwrite xs i v) ≡ overwrite (drop n xs) (i - n) v
  drop-overwrite_le zero xs i v h = ap (λ k. overwrite xs k v) {x = i} {y = i - 0} (omega arith)
  drop-overwrite_le (suc n) [] i v h = refl
  drop-overwrite_le (suc n) (x ∷ xs) zero v h = absurd (omega arith)
  drop-overwrite_le (suc n) (x ∷ xs) (suc i) v h =
      drop-overwrite_le n xs i v (omega arith)
      ∙ ap (λ k. overwrite (drop n xs) k v) {x = i - n} {y = suc i - suc n} (omega arith)

  pub take_add : (n m : ℕ) (xs : List A) → take n xs ++ take m (drop n xs) ≡ take (n + m) xs
  take_add zero m xs = ap (λ k. take k xs) {x = m} {y = 0 + m} (omega arith)
  take_add (suc n) m [] =
      take_long m [] (omega arith) ∙ sym (take_long (suc n + m) [] (omega arith))
  take_add (suc n) m (x ∷ xs) =
      ap (λ t. x ∷ t) (take_add n m xs)
      ∙ ap (λ k. take k (x ∷ xs)) {x = suc (n + m)} {y = suc n + m} (omega arith)
