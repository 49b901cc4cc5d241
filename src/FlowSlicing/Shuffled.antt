-- ===== src/FlowSlicing/Shuffled.antt =====
-- Slices that arrive in any order at filter/FlowSlicingFilter.cpp: sorting undoes it.
use hudp.Common.{
  ℕ, suc, ◌<◌, ◌≡◌, ◌∙◌, inl, inr, refl, sym, ap, ap₂, subst, List, [], ◌∷◌, map, length, leb,
  Bool-cases, arith,
}
use mathlib.Core.List.{Permᴰ}
use hudp.FlowSlicing.{SliceBag, insert_bag, sort_bags}

-- A property of every item of a list.
abbrev pub AllOf : {A : Type 0} → (A → Type 0) → List A → Type 0
AllOf P [] = Unit
AllOf P (x ∷ xs) = P x × AllOf P xs

pub AllOf-perm : {A : Type 0} (P : A → Type 0) {l m : List A} → Permᴰ l m → AllOf P l → AllOf P m
AllOf-perm P Permᴰ.nil h = h
AllOf-perm P (Permᴰ.cons e d) (h, t) = (subst P e h, AllOf-perm P d t)
AllOf-perm P (Permᴰ.swap e f) (h, (k, t)) = (subst P f k, (subst P e h, t))
AllOf-perm P (Permᴰ.trans d e) h = AllOf-perm P e (AllOf-perm P d h)

pub AllOf-over :
    {A : Type 0} {P Q : A → Type 0} → ((x : A) → P x → Q x) → (l : List A) → AllOf P l → AllOf Q l
AllOf-over f [] h = tt
AllOf-over f (x ∷ l) (h, t) = (f x h, AllOf-over f l t)

pub length-perm : {A : Type 0} {l m : List A} → Permᴰ l m → length l ≡ length m
length-perm Permᴰ.nil = refl
length-perm (Permᴰ.cons e d) = ap suc (length-perm d)
length-perm (Permᴰ.swap e f) = refl
length-perm (Permᴰ.trans d e) = length-perm d ∙ length-perm e

insert_bag_lt :
    (a b : SliceBag) (l : List SliceBag)
    → a.head.index < b.head.index
    → insert_bag a (insert_bag b l) ≡ insert_bag b (insert_bag a l)
unfolding insert_bag
insert_bag_lt a b [] h = ground (arith, h)
insert_bag_lt a b (y ∷ l) h = ground (arith, h, insert_bag_lt a b l h)

-- Two slices that an index tells apart, or that are the same, can be put in either way round.
insert_bag_comm :
    (a b : SliceBag) (l : List SliceBag)
    → (a.head.index ≡ b.head.index → a ≡ b)
    → insert_bag a (insert_bag b l) ≡ insert_bag b (insert_bag a l)
insert_bag_comm a b l same = elim (Bool-cases (leb a.head.index b.head.index)) [
  | inl e ↦ elim (Bool-cases (leb b.head.index a.head.index)) [
    | inl f ↦
        let one = same (ground (arith, e, f)) in
        subst (λ c. insert_bag a (insert_bag c l) ≡ insert_bag c (insert_bag a l)) one refl
    | inr f ↦ insert_bag_lt a b l (ground (arith, f))
  ]
  | inr e ↦ sym (insert_bag_lt b a l (ground (arith, e)))
]

module _ (bag_of : List ℕ → SliceBag) (at : ℕ → SliceBag) where
  -- The slice in the bytes is the one that belongs to its index.
  abbrev pub IsKeyed : List ℕ → Type 0
  IsKeyed s = bag_of s ≡ at (bag_of s).head.index

  pub sort_bags-perm :
      {l m : List (List ℕ)}
      → Permᴰ l m
      → AllOf IsKeyed l
      → sort_bags (map bag_of l) ≡ sort_bags (map bag_of m)
  unfolding sort_bags
  sort_bags-perm Permᴰ.nil h = refl
  sort_bags-perm (Permᴰ.cons e d) (h, t) = ap₂ insert_bag (ap bag_of e) (sort_bags-perm d t)
  sort_bags-perm (Permᴰ.swap {a} {b} {a'} {b'} {l} e f) (h, (k, t)) =
      let r = sort_bags (map bag_of l) in
      insert_bag_comm (bag_of a) (bag_of b) r (λ i. h ∙ (ap at i ∙ sym k))
      ∙ ap₂ (λ x y. insert_bag x (insert_bag y r)) (ap bag_of f) (ap bag_of e)
  sort_bags-perm (Permᴰ.trans d e) h =
      sort_bags-perm d h ∙ sort_bags-perm e (AllOf-perm IsKeyed d h)
