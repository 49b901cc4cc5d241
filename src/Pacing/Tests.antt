-- ===== src/Pacing/Tests.antt =====
-- The theorem on net/controller/Pacing.cpp at a concrete pacer.
use hudp.Common.{◌+◌, ◌≤◌, ◌<◌, ◌≡◌, List, [], ◌∷◌, refl, arith, u32, u64}
use hudp.Message.{new_msg}
use hudp.Timer.{new_timer}
use hudp.Pacing.{called_back, deferred, send_message, new_pacing}
use hudp.Pacing.Spacing.{Event, State, sends, sets_rate, steps, steps-spacing}

abbrev state : State
state = record {
  pacing = new_pacing 100;
  store = λ p. record new_msg { body = 1 ∷ 2 ∷ 3 ∷ [] };
  timer = new_timer;
}

abbrev calls : List Event
calls = sends 5000 9000 1 ∷ sets_rate 20 ∷ []

steps-spacing_example :
    let (t, spent) = steps calls state in
    let (q, store, timer, outcome) = send_message 5600 9600 2 t.store t.timer t.pacing in
    (outcome ≡ called_back → 0 + spent ≤ 5600)
    × (t.pacing.next_time ≤ 5600 → (outcome ≡ called_back) × ((store 2).head.send_time ≡ 5600))
    × (5600 < t.pacing.next_time
        → (outcome ≡ deferred)
          × ((store 2).time_id ≡ u64 (u32 t.pacing.next_time + 9600))
          × (q ≡ t.pacing))
unfolding send_message
steps-spacing_example = steps-spacing calls state 5600 9600 2 (omega arith, (tt, tt)) refl
