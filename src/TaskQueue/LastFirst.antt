-- ===== src/TaskQueue/LastFirst.antt =====
-- The order in which the queue of base/TaskQueue.h hands on what is pushed.
use hudp.Common.{
  ℕ, zero, suc, ◌+◌, ◌≤◌, ◌≡◌, ◌∙◌, refl, sym, ap, subst, true, Option, none, some, List, [], ◌∷◌,
  ◌++◌, append-nil, append_assoc, length, length-append, ltb, arith,
}
use mathlib.Core.List.{reverse, reverse-cons, reverse-reverse}
use hudp.TaskQueue.{TaskQueue, push, pop, pop_back}

module _ {ℓ} {A : Type ℓ} where
  -- Several calls of `Push`, and of `Pop`, none of which waits.
  unfoldable pub pushes : List A → TaskQueue A → Option (TaskQueue A)
  pushes [] q = some q
  pushes (x ∷ xs) q = elim (push x q) [ none ↦ none | some q' ↦ pushes xs q' ]

  unfoldable pub pops : ℕ → TaskQueue A → Option (TaskQueue A × List A)
  pops zero q = some (q, [])
  pops (suc n) q = elim (pop q) [
    | none ↦ none
    | some (q', x) ↦ elim (pops n q') [ none ↦ none | some (q'', xs) ↦ some (q'', x ∷ xs) ]
  ]

  pub pop_back-append : (xs : List A) (x : A) → pop_back (xs ++ (x ∷ [])) ≡ some (xs, x)
  unfolding pop_back
  pop_back-append [] x = refl
  pop_back-append (y ∷ ys) x = rw (pop_back-append ys x) refl

  pub pushes-lem :
      (xs : List A) (q : TaskQueue A)
      → length q.block_queue + length xs ≤ q.list_size
      → pushes xs q ≡ some (record q { block_queue = q.block_queue ++ xs })
  unfolding pushes push
  pushes-lem [] q fits =
      ap (λ l. some (record q { block_queue = l })) (sym (append-nil q.block_queue))
  pushes-lem (x ∷ xs) q fits =
      let room : ltb (length q.block_queue) q.list_size ≡ true = ground (arith, fits) in
      let q' : TaskQueue A = record q { block_queue = q.block_queue ++ (x ∷ []) } in
      rw (room, pushes)
        (pushes-lem xs q' (omega (arith, fits, length-append q.block_queue (x ∷ [])))
          ∙ ap (λ l. some (record q { block_queue = l })) (append_assoc q.block_queue (x ∷ []) xs))

  length-reverse : (xs : List A) → length (reverse xs) ≡ length xs
  length-reverse [] = refl
  length-reverse (x ∷ xs) =
      ap length (reverse-cons x xs)
      ∙ omega (arith, length-append (reverse xs) (x ∷ []), length-reverse xs)

  -- What stands at the end comes out from the end on.
  pops-reverse :
      (ys : List A) (q : TaskQueue A) (before : List A)
      → q.block_queue ≡ before ++ reverse ys
      → pops (length ys) q ≡ some (record q { block_queue = before }, ys)
  unfolding pops pop
  pops-reverse [] q before e =
      ap (λ l. some (record q { block_queue = l }, [])) (e ∙ append-nil before)
  pops-reverse (y ∷ ys) q before e =
      let split : q.block_queue ≡ (before ++ reverse ys) ++ (y ∷ []) =
        e
        ∙ ap (λ l. before ++ l) (reverse-cons y ys)
        ∙ sym (append_assoc before (reverse ys) (y ∷ [])) in
      let last : pop_back q.block_queue ≡ some (before ++ reverse ys, y) =
        ap pop_back split ∙ pop_back-append (before ++ reverse ys) y in
      rw (last, pops)
        (rw (pops-reverse ys (record q { block_queue = before ++ reverse ys }) before refl) refl)

  -- Elements that a queue has room for, pushed one after the other and then popped as many times,
  -- come out with the last one first, and the queue is as it was before: what waited in it is not
  -- handed on before any of them. No call has to wait.
  pub pops-pushes :
      (xs : List A) (q : TaskQueue A)
      → length q.block_queue + length xs ≤ q.list_size
      → (q' : TaskQueue A) × (pushes xs q ≡ some q') × (pops (length xs) q' ≡ some (q, reverse xs))
  pops-pushes xs q fits =
      let q' : TaskQueue A = record q { block_queue = q.block_queue ++ xs } in
      (
        q',
        pushes-lem xs q fits,
        subst (λ n. pops n q' ≡ some (q, reverse xs)) (length-reverse xs)
            (pops-reverse (reverse xs) q' q.block_queue
              (ap (λ l. q.block_queue ++ l) (sym (reverse-reverse xs)))),
      )
