-- ===== src/FlowSlicing/Tests.antt =====
-- The round trip of filter/FlowSlicingFilter.cpp on a body of three slices.
use hudp.Common.{ℕ, ◌≡◌, refl, Bool, true, false, some, List, [], ◌∷◌, replicate, arith}
use mathlib.Core.List.Perm
use hudp.FlowSlicing.{filter_process, erase}
use hudp.FlowSlicing.Reassembly.{relieve_each, relieve_each-filter_process}

abbrev body : List ℕ
body = replicate 800 5

abbrev takes_all : List ℕ → Bool
takes_all s = false

-- The second slice before the first.
abbrev arrived : List (List ℕ)
arrived = elim (filter_process takes_all body 41).1 [
  | [] ↦ []
  | first ∷ [] ↦ first ∷ []
  | first ∷ second ∷ rest ↦ second ∷ first ∷ rest
]

relieve_each-filter_process_example :
    let (flag, sent, done) = filter_process takes_all body 41 in
    (done ≡ true) × (relieve_each arrived [] ≡ some (erase flag [], body ∷ []))
unfolding filter_process
relieve_each-filter_process_example =
    relieve_each-filter_process takes_all body 41 [] arrived (λ s. refl) (omega arith) (omega arith)
      refl (Perm.swap _ _ _)
