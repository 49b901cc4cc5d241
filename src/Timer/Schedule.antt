-- ===== src/Timer/Schedule.antt =====
-- What AddTimer and RemoveTimer of common/Timer.cpp do to the messages that are due at each time.
use hudp.Common.{
  ℕ, ◌+◌, ◌<◌, ◌≡◌, refl, List, [], ◌∷◌, ◌++◌, arith, u64, ◌==◌, if◌then◌else◌, Bool-cases, inl,
  inr, ◌∙◌,
}
use hudp.Message.{Ptr, Store}
use hudp.Timer.{TimerMap, Timer, push_at, erase_at, set_timer_id, add_timer, remove_timer}
use hudp.Timer.Expiry.{
  due, IsRisingFrom, IsRisingFrom-weaken, push_at-IsRisingFrom, due-push_at, due-erase_at,
}

erase_at-IsRisingFrom :
    (low key : ℕ) (m : TimerMap) → IsRisingFrom low m → IsRisingFrom low (erase_at key m)
unfolding erase_at
erase_at-IsRisingFrom low key [] r = tt
erase_at-IsRisingFrom low key ((k, l) ∷ m) r = elim (Bool-cases (key == k)) [
  | inl e ↦ rw e (IsRisingFrom-weaken low (k + 1) m (omega (arith, r.0)) r.1)
  | inr e ↦ rw e (r.0, erase_at-IsRisingFrom (k + 1) key m r.1)
]

pub set_timer_id-time_id :
    (msg : Ptr) (id : ℕ) (store : Store) → (set_timer_id msg id store msg).time_id ≡ id
set_timer_id-time_id msg id store = ground arith

either_way :
    (added none_left before later : List Ptr) (j e : ℕ)
    → added ≡ (if j == e then later else before)
    → (if j == e then none_left else added) ≡ (if j == e then none_left else before)
either_way added none_left before later j e h = elim (Bool-cases (j == e)) [
  | inl f ↦ rw f refl
  | inr f ↦ ground (arith, f, h)
]

-- A message that is added with a delay of `ms` is due at `now + ms`, after those that were due then
-- already, and its number of the timer is that time. To remove it again takes away all that is due
-- at that time, the messages of others too. No other time is touched by either, and the expiration
-- times keep rising.
pub remove_timer-add_timer :
    (now ms j : ℕ) (msg : Ptr) (store : Store) (t : Timer)
    → IsRisingFrom 1 t.timer_map
    → 0 < ms + now
    → ms + now < 18446744073709551616
    → let (added, store', expiration_time, woken) = add_timer now ms msg store t in
      let (removed, store'') = remove_timer msg store' added in
      (due j added.timer_map
        ≡ (if j == ms + now then due j t.timer_map ++ (msg ∷ []) else due j t.timer_map))
      × ((store' msg).time_id ≡ ms + now)
      × (due j removed.timer_map ≡ (if j == ms + now then [] else due j t.timer_map))
      × IsRisingFrom 1 added.timer_map
      × IsRisingFrom 1 removed.timer_map
unfolding add_timer remove_timer
remove_timer-add_timer now ms j msg store t r h word =
    let e : u64 (ms + now) ≡ ms + now = omega (arith, word) in
    let id = set_timer_id-time_id msg (ms + now) store in
    let rising = push_at-IsRisingFrom 1 (ms + now) msg t.timer_map h r in
    let pushed = due-push_at 1 (ms + now) j msg t.timer_map r in
    let erased = due-erase_at 1 (ms + now) j (push_at (ms + now) msg t.timer_map) rising in
    rw (e, id)
      (
        pushed,
        refl,
        erased ∙ either_way _ _ _ _ j (ms + now) pushed,
        rising,
        erase_at-IsRisingFrom 1 (ms + now) (push_at (ms + now) msg t.timer_map) rising,
      )
