-- ===== src/MinMax/Windowed.antt =====
-- The windowed maximum of net/controller/OsCommon.h under its updates.
use hudp.Common.{
  ℕ, ◌+◌, ◌≤◌, ◌<◌, ◌≡◌, ◌||◌, ◌∙◌, sym, ap, subst, max, arith, ltb, leb, sub32, Bool-cases, inl,
  inr,
}
use hudp.MinMax.{MinMax, Sample, minmax_get, minmax_running_max, minmax_subwin_update, with_choice}

-- The samples stand in the order of their times, the best first, and all of them lie in the window
-- that ends at a time.
pub record IsWindow (win t : ℕ) (m : MinMax) : Type 0 where
  pub best : m.s1.v ≤ m.s0.v
  pub second : m.s2.v ≤ m.s1.v
  pub first_time : m.s0.t ≤ m.s1.t
  pub second_time : m.s1.t ≤ m.s2.t
  pub last_time : m.s2.t ≤ t
  pub within : t ≤ m.s0.t + win

-- The same before old samples are dropped: the new sample `val` is at most the others, and only
-- the last one is known to lie in the window.
record IsChosen (win : ℕ) (val : Sample) (m : MinMax) : Type 0 where
  best : m.s1.v ≤ m.s0.v
  second : m.s2.v ≤ m.s1.v
  third : val.v ≤ m.s2.v
  first_time : m.s0.t ≤ m.s1.t
  second_time : m.s1.t ≤ m.s2.t
  last_time : m.s2.t ≤ val.t
  within : val.t ≤ m.s2.t + win
  word : val.t < 4294967296

with_choice-IsChosen :
    (win t : ℕ) (val : Sample) (m : MinMax)
    → IsWindow win t m
    → t ≤ val.t
    → val.t < 4294967296
    → val.v ≤ m.s0.v
    → val.t ≤ m.s2.t + win
    → IsChosen win val (with_choice val m)
unfolding with_choice
with_choice-IsChosen win t val m w later word below near = ground arith

with_choice-get : (val : Sample) (m : MinMax) → (with_choice val m).s0 ≡ m.s0
unfolding with_choice
with_choice-get val m = ground arith

minmax_subwin_update-IsWindow :
    (win : ℕ) (val : Sample) (m : MinMax)
    → IsChosen win val m
    → IsWindow win val.t (minmax_subwin_update win val m)
unfolding minmax_subwin_update
minmax_subwin_update-IsWindow win val m c = ground arith

minmax_subwin_update-get :
    (win : ℕ) (val : Sample) (m : MinMax)
    → IsChosen win val m
    → (val.v ≤ minmax_get (minmax_subwin_update win val m))
      × (minmax_get (minmax_subwin_update win val m) ≤ m.s0.v)
      × (val.t ≤ m.s0.t + win → minmax_get (minmax_subwin_update win val m) ≡ m.s0.v)
unfolding minmax_subwin_update minmax_get
minmax_subwin_update-get win val m c = (ground arith, ground arith, λ h. ground arith)

-- A new sample, not older than those before it, keeps the three samples in order and leaves none
-- outside of the window. The new maximum is at least the new sample and at most the greater of it
-- and the old maximum, and it is just that while the old maximum is still in the window.
pub minmax_running_max-IsWindow :
    (win t t' meas : ℕ) (m : MinMax)
    → IsWindow win t m
    → t ≤ t'
    → t' < 4294967296
    → let m' = minmax_running_max win t' meas m in
      IsWindow win t' m'
      × (meas ≤ minmax_get m')
      × (minmax_get m' ≤ max (minmax_get m) meas)
      × (t' ≤ m.s0.t + win → minmax_get m' ≡ max (minmax_get m) meas)
unfolding minmax_running_max minmax_get
minmax_running_max-IsWindow win t t' meas m w later word =
    let val : Sample = record { t = t'; v = meas } in
    elim (Bool-cases (leb m.s0.v meas || ltb win (sub32 t' m.s2.t))) [
      | inl e ↦ rw e (ground arith, ground arith, ground (arith, e), λ h. ground (arith, e, h))
      | inr e ↦
          let c =
            with_choice-IsChosen win t val m w later word (ground (arith, e)) (ground (arith, e)) in
          let m1 = with_choice val m in
          let (low, high, same) = minmax_subwin_update-get win val m1 c in
          let s0 = ap (λ s. s.v) (with_choice-get val m) in
          rw e (
            minmax_subwin_update-IsWindow win val m1 c,
            low,
            omega (arith, high, s0),
            λ h.
                same (subst (λ (s : Sample). t' ≤ s.t + win) (sym (with_choice-get val m)) h)
                ∙ ground (arith, s0, e),
          )
    ]
