-- ===== src/Pacing/Spacing.antt =====
-- How far apart net/controller/Pacing.cpp sends its messages.
use hudp.Common.{
  ℕ, ◌+◌, ◌≤◌, ◌<◌, ◌≡◌, List, [], ◌∷◌, refl, arith, ltb, is_empty, u32, u64, ◌*◌, false,
  Bool-cases, inl, inr,
}
use native.Mathlib.Nat.{div-le_self}
use hudp.Config.{msg_pacing_send}
use hudp.Message.{Ptr, Store, set_flag, set_send_time}
use hudp.Message.MsgHead
use hudp.Timer.Schedule.{set_timer_id-time_id}
use hudp.Serializes.{estimate_size}
use hudp.Timer.{Timer, add_timer}
use hudp.Pacing.{
  Pacing, Outcome, sent_to_net, deferred, called_back, msg_len, send_message, set_pacing_rate,
  update,
}

pub data Event : Type 0 where
  sends : (stamp now : ℕ) (msg : Ptr) → Event
  sets_rate : ℕ → Event

pub record State : Type 0 where
  pub pacing : Pacing
  pub store : Store
  pub timer : Timer

abbrev pub time_of : Outcome → ℕ → ℕ
time_of sent_to_net len = 0
time_of deferred len = 0
time_of called_back len = len

-- One call of the pacer, and the time at the current rate of the message that it let through.
abbrev pub step : Event → State → State × ℕ
step (sends stamp now msg) s =
    let r = send_message stamp now msg s.store s.timer s.pacing in
    (
      record { pacing = r.0; store = r.1; timer = r.2 },
      time_of r.3 (msg_len (estimate_size (s.store msg)) s.pacing),
    )
step (sets_rate rate) s = (record s { pacing = set_pacing_rate rate s.pacing }, 0)

-- The calls in their order, and the time of all messages that were let through.
abbrev pub steps : List Event → State → State × ℕ
steps [] s = (s, 0)
steps (e ∷ es) s = let r = step e s in let rest = steps es r.0 in (rest.0, r.1 + rest.1)

-- Stamps are so small that no time that is added to them wraps.
abbrev pub IsStamp : Event → Type 0
IsStamp (sends stamp now msg) = stamp < 18446744069414584320
IsStamp (sets_rate rate) = Unit

abbrev pub AreStamps : List Event → Type 0
AreStamps [] = Unit
AreStamps (e ∷ es) = IsStamp e × AreStamps es

msg_len-bound : (size : ℕ) (q : Pacing) → msg_len size q < 4294967296
unfolding msg_len
msg_len-bound size q = ground (arith, div-le_self (u32 (size * 1000)) q.pacing_rate)

send_message-next_time :
    (stamp now : ℕ) (msg : Ptr) (s : State)
    → stamp < 18446744069414584320
    → let r = step (sends stamp now msg) s in s.pacing.next_time + r.1 ≤ r.0.pacing.next_time
unfolding send_message
send_message-next_time stamp now msg s h =
    let size = estimate_size (s.store msg) in
    elim (Bool-cases (is_empty (s.store msg).body)) [
      | inl e ↦ rw e omega arith
      | inr e ↦ elim (Bool-cases (ltb stamp s.pacing.next_time)) [
        | inl f ↦ rw (e, f) omega arith
        | inr f ↦ rw (e, f) ground (arith, h, f, msg_len-bound size s.pacing)
      ]
    ]

steps-next_time :
    (es : List Event) (s : State)
    → AreStamps es
    → let r = steps es s in s.pacing.next_time + r.1 ≤ r.0.pacing.next_time
unfolding set_pacing_rate
steps-next_time [] s h = omega arith
steps-next_time (sends stamp now msg ∷ es) s h =
    let first = send_message-next_time stamp now msg s h.0 in
    omega (arith, first, steps-next_time es (step (sends stamp now msg) s).0 h.1)
steps-next_time (sets_rate rate ∷ es) s h =
    omega (arith, steps-next_time es (step (sets_rate rate) s).0 h.1)

update-send_time :
    (stamp : ℕ) (msg : Ptr) (store : Store)
    → (update msg (set_send_time stamp) store msg).head.send_time ≡ stamp
unfolding set_send_time MsgHead.set_send_time
update-send_time stamp msg store = ground arith

send_message-outcome :
    (stamp now : ℕ) (msg : Ptr) (s : State)
    → is_empty (s.store msg).body ≡ false
    → let r = send_message stamp now msg s.store s.timer s.pacing in
      (r.3 ≡ called_back → s.pacing.next_time ≤ stamp)
      × (s.pacing.next_time ≤ stamp → (r.3 ≡ called_back) × ((r.1 msg).head.send_time ≡ stamp))
      × (stamp < s.pacing.next_time
          → (r.3 ≡ deferred)
            × ((r.1 msg).time_id ≡ u64 (u32 s.pacing.next_time + now))
            × (r.0 ≡ s.pacing))
unfolding send_message add_timer
send_message-outcome stamp now msg s h = elim (Bool-cases (ltb stamp s.pacing.next_time)) [
  | inl f ↦
      rw (h, f)
        (
          λ c. absurd (ground (arith, c)),
          λ late. absurd (ground (arith, f, late)),
          λ early. (
            refl,
            set_timer_id-time_id msg _ (update msg (set_flag msg_pacing_send) s.store),
            refl,
          ),
        )
  | inr f ↦
      rw (h, f)
        (
          λ c. ground (arith, f),
          λ late. (refl, update-send_time stamp msg s.store),
          λ early. absurd (ground (arith, f, early)),
        )
]

-- Whatever the pacer was called for before, at whatever rates: a message with a body goes on to the
-- network, with the time of its sending, exactly when the stamp has reached the next time of the
-- pacer, and by then every message that went before has had its time at its rate, one after the
-- other. Before that time it is kept, the pacer stays as it is, and the timer is told to wait for
-- as many milliseconds as the low 32 bits of the next time, a point in time, amount to.
pub steps-spacing :
    (es : List Event) (s : State) (stamp now : ℕ) (msg : Ptr)
    → AreStamps es
    → is_empty ((steps es s).0.store msg).body ≡ false
    → let (t, spent) = steps es s in
      let (q, store, timer, outcome) = send_message stamp now msg t.store t.timer t.pacing in
      (outcome ≡ called_back → s.pacing.next_time + spent ≤ stamp)
      × (t.pacing.next_time ≤ stamp
          → (outcome ≡ called_back) × ((store msg).head.send_time ≡ stamp))
      × (stamp < t.pacing.next_time
          → (outcome ≡ deferred)
            × ((store msg).time_id ≡ u64 (u32 t.pacing.next_time + now))
            × (q ≡ t.pacing))
steps-spacing es s stamp now msg h body =
    let before = steps-next_time es s h in
    let last = send_message-outcome stamp now msg (steps es s).0 body in
    (λ c. omega (arith, before, last.0 c), last.1, last.2)
