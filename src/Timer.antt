-- ===== src/Timer.antt =====
-- The timer of common/Timer.h and common/Timer.cpp.
-- `std::map` is a list of its entries in the order of their keys. The thread of `Run` is two steps:
-- what a round reads before it waits, and what it does after; other calls stand between them. The
-- clock is an argument. The store gives the messages, whose timer ids the timer writes.
mod Tests
pub mod Expiry
pub mod Rounds
pub mod Schedule
use hudp.Common.{
  ℕ, ◌+◌, ◌-◌, Bool, true, false, ◌&&◌, Option, none, some, List, [], ◌∷◌, ◌++◌, ltb, leb, ◌==◌,
  if◌then◌else◌, u64, zero, suc,
}
use hudp.Config.{timer_empty_wait}
use hudp.Message.{Msg, Ptr, Store}

abbrev pub TimerMap : Type 0
TimerMap = List (ℕ × List Ptr)

pub record Timer : Type 0 where
  pub timer_map : TimerMap
  pub wait_time : ℕ

abbrev pub new_timer : Timer
new_timer = record { timer_map = []; wait_time = timer_empty_wait }

-- `_timer_map[key].push_back(msg)`.
unfoldable pub push_at : ℕ → Ptr → TimerMap → TimerMap
push_at key msg [] = (key, msg ∷ []) ∷ []
push_at key msg ((k, l) ∷ m) =
    if ltb key k
    then (key, msg ∷ []) ∷ (k, l) ∷ m
    else if key == k
    then (k, l ++ (msg ∷ [])) ∷ m
    else (k, l) ∷ push_at key msg m

unfoldable pub find_at : ℕ → TimerMap → Option (List Ptr)
find_at key [] = none
find_at key ((k, l) ∷ m) = if key == k then some l else find_at key m

-- `_timer_map.erase(key)`.
unfoldable pub erase_at : ℕ → TimerMap → TimerMap
erase_at key [] = []
erase_at key ((k, l) ∷ m) = if key == k then m else (k, l) ∷ erase_at key m

-- `SetTimerId` on a shared message.
abbrev pub set_timer_id : Ptr → ℕ → Store → Store
set_timer_id msg id store p = if p == msg then record (store msg) { time_id = id } else store p

-- The timer, the store, the expiration time, and whether the thread is woken.
unfoldable pub add_timer : ℕ → ℕ → Ptr → Store → Timer → Timer × Store × ℕ × Bool
unfolding push_at
add_timer now ms msg store t =
    let expiration_time = u64 (ms + now) in
    (
      record t { timer_map = push_at expiration_time msg t.timer_map },
      set_timer_id msg expiration_time store,
      expiration_time,
      ltb ms t.wait_time,
    )

-- Both versions of `RemoveTimer`.
unfoldable pub remove_timer : Ptr → Store → Timer → Timer × Store
unfolding erase_at
remove_timer msg store t =
    (record t { timer_map = erase_at (store msg).time_id t.timer_map }, set_timer_id msg 0 store)

-- A round of `Run` before the wait: the first expiration time, if there is one, whether it has come,
-- and the time to wait.
unfoldable pub look : ℕ → Timer → Timer × Option ℕ × Bool
look now t = elim t.timer_map [
  | [] ↦ (record t { wait_time = timer_empty_wait }, none, false)
  | e ∷ m ↦
      if ltb now e.0
      then (record t { wait_time = e.0 - now }, some e.0, false)
      else (record t { wait_time = 0 }, some e.0, true)
]

-- The rest of the round: the timer, and the messages that have run out. `none` stands for a list
-- that was taken out of the map during the wait, which the source goes on to read.
unfoldable pub fire : ℕ → Option ℕ → Bool → Timer → Option (Timer × List Ptr)
unfolding find_at erase_at
fire now none timer_out t = some (t, [])
fire now (some cur) timer_out t =
    let left : Timer = record t { timer_map = erase_at cur t.timer_map } in
    if timer_out && ltb 0 cur && leb cur now
    then elim (find_at cur t.timer_map) [ none ↦ none | some l ↦ some (left, l) ]
    else if timer_out && (cur == 0)
    then some (left, [])
    else some (t, [])

-- A round of `Run` that does not wait, at a clock that stands still.
unfoldable pub round : ℕ → Timer → Option (Timer × List Ptr)
round now t = let seen = look now t in fire now seen.1 seen.2 seen.0

-- Rounds of `Run`, as many as the fuel.
unfoldable pub run : ℕ → ℕ → Timer → Option (Timer × List Ptr)
run zero now t = some (t, [])
run (suc fuel) now t = elim (round now t) [
  | none ↦ none
  | some first ↦ elim (run fuel now first.0) [
    | none ↦ none
    | some rest ↦ some (rest.0, first.1 ++ rest.1)
  ]
]
