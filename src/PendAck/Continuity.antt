-- ===== src/PendAck/Continuity.antt =====
-- When `GetAllAck` of common/PendAck.cpp reports a run of consecutive ids.
use hudp.Common.{
  ℕ, suc, ◌+◌, ◌≤◌, ◌<◌, ◌≡◌, refl, sym, ap, Bool, true, false, List, [], ◌∷◌, ◌++◌, ◌==◌,
  if◌then◌else◌, arith, subst, sub16, ids_from, length, append-nil, append_assoc, Bool-cases, inl,
  inr,
}
use hudp.PendAck.{AckMap, PendAck, get_all_loop, get_all_ack, new_pend_ack, still_continuous}
use hudp.PendAck.Map.{IsSortedFrom}
use hudp.PendAck.Take.{keys, stamps}

get_all_loop-keys :
    (m : AckMap) (acks times : List ℕ) (continuity : Bool) (prev : ℕ)
    → let r = get_all_loop acks times continuity prev m in
      (r.0 ≡ acks ++ keys m) × (r.1 ≡ times ++ stamps m)
unfolding get_all_loop
get_all_loop-keys [] acks times continuity prev = (sym (append-nil acks), sym (append-nil times))
get_all_loop-keys ((id, time) ∷ m) acks times continuity prev = ground (
  arith,
  get_all_loop-keys m (acks ++ (id ∷ [])) (if time == 0 then times else times ++ (time ∷ []))
      (still_continuous prev id continuity) id,
  append_assoc acks (id ∷ []) (keys m),
  append_assoc times (time ∷ []) (stamps m),
)

-- A flag that is down stays down.
get_all_loop-false :
    (m : AckMap) (acks times : List ℕ) (prev : ℕ) → (get_all_loop acks times false prev m).2 ≡ false
unfolding get_all_loop
get_all_loop-false [] acks times prev = refl
get_all_loop-false ((id, time) ∷ m) acks times prev = ground (
  arith,
  get_all_loop-false m (acks ++ (id ∷ [])) (if time == 0 then times else times ++ (time ∷ [])) id,
)

-- The keys are 16-bit words.
abbrev pub AreWords : AckMap → Type 0
AreWords [] = Unit
AreWords ((id, time) ∷ m) = (id ≤ 65535) × AreWords m

-- Behind a positive id the flag stays up exactly over the ids that follow it.
get_all_loop-run :
    (m : AckMap) (acks times : List ℕ) (prev : ℕ)
    → 0 < prev
    → IsSortedFrom (prev + 1) m
    → AreWords m
    → ((get_all_loop acks times true prev m).2 ≡ true → keys m ≡ ids_from (prev + 1) (length m))
      × (keys m ≡ ids_from (prev + 1) (length m) → (get_all_loop acks times true prev m).2 ≡ true)
unfolding get_all_loop
get_all_loop-run [] acks times prev pos s w = (λ _. refl, λ _. refl)
get_all_loop-run ((id, time) ∷ m) acks times prev pos s w =
    let acks' = acks ++ (id ∷ []) in
    let times' = if time == 0 then times else times ++ (time ∷ []) in
    elim (Bool-cases (prev == sub16 id 1)) [
      | inl follows ↦
          let step : id ≡ prev + 1 = ground arith in
          let rest = get_all_loop-run m acks' times' id (omega arith) s.1 w.1 in
          ground (arith, rest)
      | inr gap ↦ ground (arith, get_all_loop-false m acks' times' id)
    ]

length-keys : (m : AckMap) → length (keys m) ≡ length m
length-keys [] = refl
length-keys (entry ∷ m) = ap suc (length-keys m)

-- On a map that is not empty, sorted as `std::map` keeps it and of 16-bit ids, `GetAllAck` with empty
-- vectors returns all ids in rising order and all times, and leaves the object as a new one; and if
-- the smallest id is not 0, the flag that it returns says exactly whether there are at least two ids
-- and they follow one another without a gap.
pub get_all_ack-lem :
    (id time : ℕ) (m : AckMap) (flag : Bool) (p : PendAck)
    → p.ack_map ≡ (id, time) ∷ m
    → IsSortedFrom 0 p.ack_map
    → AreWords p.ack_map
    → let (p', acks, times, continuity, done) = get_all_ack [] [] flag p in
      (acks ≡ keys p.ack_map)
      × (times ≡ stamps p.ack_map)
      × (p' ≡ new_pend_ack)
      × (0 < id → continuity ≡ true → (acks ≡ ids_from id (length acks)) × (2 ≤ length acks))
      × (0 < id → acks ≡ ids_from id (length acks) → 2 ≤ length acks → continuity ≡ true)
unfolding get_all_ack get_all_loop
get_all_ack-lem id time m flag p e s w =
    let times = if time == 0 then [] else time ∷ [] in
    let sorted : IsSortedFrom 0 ((id, time) ∷ m) = subst (IsSortedFrom 0) e s in
    let words : AreWords ((id, time) ∷ m) = subst AreWords e w in
    let all = get_all_loop-keys m (id ∷ []) times true id in
    let run = λ (pos : 0 < id). get_all_loop-run m (id ∷ []) times id pos sorted.1 words.1 in
    rw e (
      all.0,
      ground (arith, all),
      refl,
      λ pos up. ground (arith, all, run pos, length-keys m),
      λ pos follows long. ground (arith, all, run pos, length-keys m),
    )

-- If 0 is among the ids, the gap behind it is not seen: for the ids 0 and `id` the flag says that
-- they follow one another, whatever `id` is.
pub get_all_ack-after_zero :
    (id t time : ℕ) (flag : Bool) (p : PendAck)
    → p.ack_map ≡ (0, t) ∷ (id, time) ∷ []
    → let (p', acks, times, continuity, done) = get_all_ack [] [] flag p in
      (acks ≡ 0 ∷ id ∷ []) × (continuity ≡ true)
unfolding get_all_ack get_all_loop
get_all_ack-after_zero id t time flag p e = rw e (refl, refl)
