-- ===== src/Pacing.antt =====
-- The pacer of net/controller/Pacing.h and net/controller/Pacing.cpp. `stamp` is the answer of
-- `GetCurTimeStamp()` and `now` the clock of the timer. The timer of the pacers, which all sockets
-- share, and the store are passed along. What becomes of the message is the `Outcome`: it leaves at
-- once, it is kept for later, or it goes through the call back of the socket.
mod Tests
pub mod Spacing
use hudp.Common.{ℕ, ◌+◌, ◌*◌, ◌/◌, Bool, ltb, ◌==◌, if◌then◌else◌, is_empty, u32, u64}
use hudp.Config.{defaule_pacing_rate, msg_pacing_send}
use hudp.Message.{Msg, Ptr, Store, set_flag, set_send_time}
use hudp.Serializes.{estimate_size}
use hudp.Timer.{Timer, add_timer, remove_timer}
use hudp.Bbr.Block.{usec_per_msec}

pub record Pacing : Type 0 where
  pub pacing_rate : ℕ
  pub next_time : ℕ

pub data Outcome : Type 0 where
  sent_to_net deferred called_back : Outcome

-- The constructor, which leaves the rate as the memory was.
abbrev pub new_pacing : ℕ → Pacing
new_pacing memory = record { pacing_rate = memory; next_time = 0 }

unfoldable pub set_pacing_rate : ℕ → Pacing → Pacing
set_pacing_rate rate q = record q { pacing_rate = rate }

unfoldable pub get_pacing_rate : Pacing → ℕ
get_pacing_rate q = q.pacing_rate

-- A write to a shared message.
abbrev pub update : Ptr → (Msg → Msg) → Store → Store
update msg f store p = if p == msg then f (store msg) else store p

-- The time that a message of a size takes at the rate; the product is kept in 32 bits.
unfoldable pub msg_len : ℕ → Pacing → ℕ
msg_len size q =
    let rate = if q.pacing_rate == 0 then defaule_pacing_rate else q.pacing_rate in
    let len = u32 (size * usec_per_msec) in if rate == 0 then len else len / rate

unfoldable pub send_message :
    ℕ → ℕ → Ptr → Store → Timer → Pacing → Pacing × Store × Timer × Outcome
unfolding msg_len
send_message stamp now msg store timer q =
    let flagged = update msg (set_flag msg_pacing_send) store in
    let (timer', store', expiration_time, woken) =
      add_timer now (u32 q.next_time) msg flagged timer in
    if is_empty (store msg).body
    then (q, store, timer, sent_to_net)
    else if ltb stamp q.next_time
    then (q, store', timer', deferred)
    else (
      record q { next_time = u64 (msg_len (estimate_size (store msg)) q + stamp) },
      update msg (set_send_time stamp) store,
      timer,
      called_back,
    )

unfoldable pub remove_msg : Ptr → Store → Timer → Timer × Store
unfolding remove_timer
remove_msg msg store timer = remove_timer msg store timer
