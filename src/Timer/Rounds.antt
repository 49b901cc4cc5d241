-- ===== src/Timer/Rounds.antt =====
-- Rounds of the thread of common/Timer.cpp against the messages that have run out.
use hudp.Common.{
  ℕ, ◌+◌, ◌≤◌, ◌<◌, ◌≡◌, refl, some, List, [], ◌∷◌, ◌++◌, arith, leb, if◌then◌else◌, Bool-cases,
  inl, inr, length, ltb, true, false, suc, zero, ◌-◌,
}
use hudp.Config.{timer_empty_wait}
use hudp.Message.{Ptr}
use hudp.Timer.{TimerMap, find_at, erase_at, look, fire, round, run}
use hudp.Timer.Expiry.{IsRisingFrom, IsRisingFrom-weaken}

-- The messages whose time has come, by time and then in the order they were added.
unfoldable pub expired : ℕ → TimerMap → List Ptr
expired now [] = []
expired now ((k, l) ∷ m) = if leb k now then l ++ expired now m else []

unfoldable pub later : ℕ → TimerMap → TimerMap
later now [] = []
later now ((k, l) ∷ m) = if leb k now then later now m else (k, l) ∷ m

find_at-head : (k : ℕ) (l : List Ptr) (m : TimerMap) → find_at k ((k, l) ∷ m) ≡ some l
unfolding find_at
find_at-head k l m = ground arith

erase_at-head : (k : ℕ) (l : List Ptr) (m : TimerMap) → erase_at k ((k, l) ∷ m) ≡ m
unfolding erase_at
erase_at-head k l m = ground arith

round-due :
    (now k w : ℕ) (l : List Ptr) (m : TimerMap)
    → 0 < k
    → k ≤ now
    → round now (record { timer_map = (k, l) ∷ m; wait_time = w })
      ≡ some (record { timer_map = m; wait_time = 0 }, l)
unfolding round look fire
round-due now k w l m h d =
    let a : ltb now k ≡ false = ground (arith, d) in
    let c : ltb 0 k ≡ true = ground (arith, h) in
    let e : leb k now ≡ true = ground (arith, d) in
    rw (a, c, e, find_at-head k l m, erase_at-head k l m) refl

round-early :
    (now k w : ℕ) (l : List Ptr) (m : TimerMap)
    → now < k
    → (v : ℕ) × (round now (record { timer_map = (k, l) ∷ m; wait_time = w })
        ≡ some (record { timer_map = (k, l) ∷ m; wait_time = v }, []))
unfolding round look fire
round-early now k w l m d =
    let early : ltb now k ≡ true = ground (arith, d) in (k - now, rw early refl)

run-early :
    (fuel now k w : ℕ) (l : List Ptr) (m : TimerMap)
    → now < k
    → (v : ℕ) × (run fuel now (record { timer_map = (k, l) ∷ m; wait_time = w })
        ≡ some (record { timer_map = (k, l) ∷ m; wait_time = v }, []))
unfolding run
run-early zero now k w l m d = (w, refl)
run-early (suc fuel) now k w l m d =
    let first = round-early now k w l m d in
    let rest = run-early fuel now k first.0 l m d in (rest.0, rw (run, first.1, rest.1) refl)

run-empty :
    (fuel now w : ℕ)
    → (v : ℕ) × (run fuel now (record { timer_map = []; wait_time = w })
        ≡ some (record { timer_map = []; wait_time = v }, []))
unfolding run round look fire
run-empty zero now w = (w, refl)
run-empty (suc fuel) now w =
    let rest = run-empty fuel now timer_empty_wait in (rest.0, rw rest.1 refl)

-- As many rounds as there are expiration times, or more, all at one clock, always succeed: they hand
-- out the messages whose time has come, by time and then in the order they were added, each once,
-- and leave the others in the map. The expiration times rise and are not 0.
pub run-expired :
    (fuel now w : ℕ) (m : TimerMap)
    → IsRisingFrom 1 m
    → length m ≤ fuel
    → (v : ℕ) × (run fuel now (record { timer_map = m; wait_time = w })
        ≡ some (record { timer_map = later now m; wait_time = v }, expired now m))
unfolding run expired later
run-expired fuel now w [] r h = run-empty fuel now w
run-expired zero now w ((k, l) ∷ m) r h = absurd (omega (arith, h))
run-expired (suc fuel) now w ((k, l) ∷ m) r h = elim (Bool-cases (leb k now)) [
  | inl e ↦
      let r' = IsRisingFrom-weaken 1 (k + 1) m (omega arith) r.1 in
      let rest = run-expired fuel now 0 m r' (omega (arith, h)) in
      (
        rest.0,
        rw (run, e, round-due now k w l m (omega (arith, r.0)) (ground (arith, e)), rest.1) refl,
      )
  | inr e ↦ rw e (run-early (suc fuel) now k w l m (ground (arith, e)))
]
