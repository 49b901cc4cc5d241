-- ===== src/Timer/Tests.antt =====
-- The theorems on common/Timer.cpp at concrete timers.
use hudp.Common.{◌≡◌, refl, ℕ, some, [], ◌∷◌, arith}
use hudp.Message.{Store, new_msg}
use hudp.Timer.{TimerMap, remove_timer, run}
use hudp.Timer.Expiry.{IsRisingFrom}
use hudp.Timer.Rounds.{expired, later, run-expired}

abbrev three_times : TimerMap
three_times = (10, 1 ∷ 2 ∷ []) ∷ (20, 3 ∷ []) ∷ (30, 4 ∷ []) ∷ []

three_times-IsRisingFrom : IsRisingFrom 1 three_times
three_times-IsRisingFrom = (omega arith, (omega arith, (omega arith, tt)))

run-expired_example :
    (v : ℕ) × (run 3 20 (record { timer_map = three_times; wait_time = 5 })
      ≡ some (record { timer_map = (30, 4 ∷ []) ∷ []; wait_time = v }, 1 ∷ 2 ∷ 3 ∷ []))
unfolding expired later
run-expired_example = run-expired 3 20 5 three_times three_times-IsRisingFrom (omega arith)

abbrev timed : Store
timed p = record new_msg { time_id = 10 }

-- Both messages of the time of the one that is removed are gone.
removed_together :
    (remove_timer 1 timed (record { timer_map = three_times; wait_time = 5 })).0.timer_map
    ≡ (20, 3 ∷ []) ∷ (30, 4 ∷ []) ∷ []
unfolding remove_timer
removed_together = refl
