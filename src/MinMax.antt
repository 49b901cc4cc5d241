-- ===== src/MinMax.antt =====
-- The windowed maximum of net/controller/OsCommon.h: the best three samples of a window.
mod Tests
pub mod Windowed
use hudp.Common.{ℕ, ◌/◌, Bool, ◌&&◌, ◌||◌, ltb, leb, ◌==◌, if◌then◌else◌, sub32}

-- `struct minmax_sample`.
pub record Sample : Type 0 where
  pub t : ℕ
  pub v : ℕ

-- `struct minmax`, its array of three samples as three fields.
pub record MinMax : Type 0 where
  pub s0 : Sample
  pub s1 : Sample
  pub s2 : Sample

unfoldable pub minmax_get : MinMax → ℕ
minmax_get m = m.s0.v

unfoldable pub minmax_reset : ℕ → ℕ → MinMax
minmax_reset t meas =
    let val : Sample = record { t = t; v = meas } in record { s0 = val; s1 = val; s2 = val }

-- The three assignments that drop the first sample.
abbrev pub shift : Sample → MinMax → MinMax
shift val m = record { s0 = m.s1; s1 = m.s2; s2 = val }

unfoldable pub minmax_subwin_update : ℕ → Sample → MinMax → MinMax
minmax_subwin_update win val m =
    let dt = sub32 val.t m.s0.t in
    let m1 = shift val m in
    if ltb win dt
    then (if ltb win (sub32 val.t m1.s0.t) then shift val m1 else m1)
    else if (m.s1.t == m.s0.t) && ltb (win / 4) dt
    then record m { s1 = val; s2 = val }
    else if (m.s2.t == m.s1.t) && ltb (win / 2) dt
    then record m { s2 = val }
    else m

-- The samples after the two tests for a second and a third choice.
unfoldable pub with_choice : Sample → MinMax → MinMax
with_choice val m =
    if leb m.s1.v val.v
    then record m { s1 = val; s2 = val }
    else if leb m.s2.v val.v
    then record m { s2 = val }
    else m

unfoldable pub minmax_running_max : ℕ → ℕ → ℕ → MinMax → MinMax
unfolding minmax_reset minmax_subwin_update with_choice
minmax_running_max win t meas m =
    let val : Sample = record { t = t; v = meas } in
    if leb m.s0.v meas || ltb win (sub32 t m.s2.t)
    then minmax_reset t meas
    else minmax_subwin_update win val (with_choice val m)
