-- ===== src/SendWnd/Window.antt =====
-- How much of the window of common/SendWnd.cpp is used.
use hudp.Common.{
  ℕ, zero, suc, ◌≤◌, ◌<◌, ◌≡◌, ◌⊎◌, inl, inr, refl, ◌∙◌, false, Option, none, some, arith, ltb,
  ◌==◌, sub16, Bool-cases, Option-cases,
}
use hudp.Message.{Ptr}
use hudp.PriorityQueue.{pop, size}
use hudp.PriorityQueue.Conservation.{pop-size}
use hudp.SendWnd.{
  IdMap, SendWnd, find, push_back_to_send_wnd, send_next_loop, send_next, push_back, take_out,
  quick_resend, accept_ack, change_send_wnd_size, send_and_ack,
}

-- `v` is `w` after more messages were sent: the window is as large as before, and no further used
-- than it was or than it allows.
pub record IsSentOn (w v : SendWnd) : Type 0 where
  pub same_size : v.send_wnd_size ≡ w.send_wnd_size
  pub limited : v.always_send ≡ w.always_send
  pub bound : (v.cur_send_size ≤ w.cur_send_size) ⊎ (v.cur_send_size ≤ w.send_wnd_size)

-- Nothing more can be sent: the window is full, or no message waits.
abbrev pub IsSettled : SendWnd → Type 0
IsSettled w = (w.send_wnd_size ≤ w.cur_send_size) ⊎ (size w.priority_queue ≡ 0)

module _ (begin : IdMap → Option Ptr) where
  send_next_loop-IsSentOn :
      (fuel : ℕ) (w : SendWnd)
      → w.send_wnd_size ≤ 65535
      → w.always_send ≡ false
      → IsSentOn w (send_next_loop begin fuel w)
  unfolding send_next_loop push_back_to_send_wnd
  send_next_loop-IsSentOn zero w h a = record {
    same_size = refl;
    limited = refl;
    bound = inl (omega arith);
  }
  send_next_loop-IsSentOn (suc fuel) w h a =
      let popped : SendWnd = record w { priority_queue = (pop w.priority_queue).0 } in
      elim (Bool-cases (ltb w.cur_send_size w.send_wnd_size)) [
        | inr e ↦
            rw (e, send_next_loop)
              (record { same_size = refl; limited = refl; bound = inl (omega arith) })
        | inl e ↦
            rw (e, send_next_loop)
              (elim (Option-cases (pop w.priority_queue).1) [
                | inl f ↦
                    rw f (record { same_size = refl; limited = refl; bound = inl (omega arith) })
                | inr (temp, f) ↦
                    let v = push_back_to_send_wnd begin temp popped in
                    let r = send_next_loop-IsSentOn fuel v h a in
                    rw f (record {
                      same_size = r.same_size;
                      limited = r.limited;
                      bound = ground (arith, r.bound, e, a, h);
                    })
              ])
      ]

  send_next_loop-IsSettled :
      (fuel : ℕ) (w : SendWnd)
      → size w.priority_queue < fuel
      → IsSettled (send_next_loop begin fuel w)
  unfolding send_next_loop push_back_to_send_wnd
  send_next_loop-IsSettled zero w h = absurd (omega arith)
  send_next_loop-IsSettled (suc fuel) w h =
      let popped : SendWnd = record w { priority_queue = (pop w.priority_queue).0 } in
      let p = pop-size w.priority_queue in
      elim (Bool-cases (ltb w.cur_send_size w.send_wnd_size)) [
        | inr e ↦ rw (e, send_next_loop) (inl (ground (arith, e)))
        | inl e ↦
            rw (e, send_next_loop)
              (elim (Option-cases (pop w.priority_queue).1) [
                | inl f ↦ rw f (inr (ground (arith, p, f)))
                | inr (temp, f) ↦ rw f (
                    send_next_loop-IsSettled fuel (push_back_to_send_wnd begin temp popped)
                      (ground (arith, p, f, h)))
              ])
      ]

  send_next-IsSettled : (w : SendWnd) → IsSettled (send_next begin w)
  unfolding send_next
  send_next-IsSettled w = send_next_loop-IsSettled (suc (size w.priority_queue)) w (omega arith)

  send_next-IsSentOn :
      (w : SendWnd)
      → w.send_wnd_size ≤ 65535
      → w.always_send ≡ false
      → IsSentOn w (send_next begin w)
  unfolding send_next
  send_next-IsSentOn w = send_next_loop-IsSentOn (suc (size w.priority_queue)) w

  push_back-IsSettled :
      (msg : Option Ptr) (w : SendWnd) → IsSettled w → IsSettled (push_back begin msg w)
  unfolding push_back push_back_to_send_wnd
  push_back-IsSettled none w h = h
  push_back-IsSettled (some msg) w h = ground (arith, h)

  accept_ack-IsSettled : (id : ℕ) (w : SendWnd) → IsSettled w → IsSettled (accept_ack begin id w).0
  unfolding accept_ack send_and_ack
  accept_ack-IsSettled id w h = elim (Option-cases (find id w.id_msg_map)) [
    | inl e ↦ rw (e, accept_ack) h
    | inr (msg, e) ↦
        rw (e, accept_ack) (send_next-IsSettled (quick_resend begin (take_out begin id msg w)))
  ]

  change-IsSettled :
      (n : ℕ) (w : SendWnd) → IsSettled w → IsSettled (change_send_wnd_size begin n w)
  unfolding change_send_wnd_size send_and_ack
  change-IsSettled n w h = elim (Bool-cases (w.send_wnd_size == n)) [
    | inl e ↦ rw e h
    | inr e ↦ rw e (send_next-IsSettled (record w { send_wnd_size = n }))
  ]

  push_back-bound :
      (msg : Option Ptr) (w : SendWnd)
      → w.send_wnd_size ≤ 65535
      → w.cur_send_size ≤ w.send_wnd_size
      → (push_back begin msg w).cur_send_size ≤ w.send_wnd_size
  unfolding push_back push_back_to_send_wnd
  push_back-bound none w word h = h
  push_back-bound (some msg) w word h = ground (arith, h, word)

  taken :
      (id : ℕ) (msg : Ptr) (w : SendWnd)
      → let v = quick_resend begin (take_out begin id msg w) in
        (v.send_wnd_size ≡ w.send_wnd_size)
        × (v.always_send ≡ w.always_send)
        × (v.cur_send_size ≡ sub16 w.cur_send_size 1)
  unfolding quick_resend take_out
  taken id msg w = (ground arith, ground arith, ground arith)

  accept_ack-bound :
      (id : ℕ) (w : SendWnd)
      → w.send_wnd_size ≤ 65535
      → w.always_send ≡ false
      → 0 < w.cur_send_size
      → w.cur_send_size ≤ w.send_wnd_size
      → (accept_ack begin id w).0.cur_send_size ≤ w.send_wnd_size
  unfolding accept_ack send_and_ack
  accept_ack-bound id w word a some_sent h = elim (Option-cases (find id w.id_msg_map)) [
    | inl e ↦ rw (e, accept_ack) h
    | inr (msg, e) ↦
        let v = quick_resend begin (take_out begin id msg w) in
        let (same, limited, cur) = taken id msg w in
        let r = send_next-IsSentOn v (omega (arith, same, word)) (limited ∙ a) in
        rw (e, accept_ack) (ground (arith, r.bound, cur, same))
  ]

  change-bound :
      (n : ℕ) (w : SendWnd)
      → n ≤ 65535
      → w.always_send ≡ false
      → let v = change_send_wnd_size begin n w in
        (v.send_wnd_size ≡ n) × ((v.cur_send_size ≤ w.cur_send_size) ⊎ (v.cur_send_size ≤ n))
  unfolding change_send_wnd_size send_and_ack
  change-bound n w word a = elim (Bool-cases (w.send_wnd_size == n)) [
    | inl e ↦ rw e (ground (arith, e), inl (omega arith))
    | inr e ↦
        let r = send_next-IsSentOn (record w { send_wnd_size = n }) word a in
        rw e (r.same_size, r.bound)
  ]

  -- The send window is always settled: in a window where the room is used up or no message waits,
  -- that is still so after a message is added, after an ack of any id, and after a change of its
  -- size, whether or not the window is limited and whichever entry the map gives first.
  pub window-IsSettled :
      (w : SendWnd) (msg : Option Ptr) (id n : ℕ)
      → IsSettled w
      → IsSettled (push_back begin msg w)
        × IsSettled (accept_ack begin id w).0
        × IsSettled (change_send_wnd_size begin n w)
  window-IsSettled w msg id n h =
      (push_back-IsSettled msg w h, accept_ack-IsSettled id w h, change-IsSettled n w h)

  -- A limited window with a message in flight is never overfull: from a window that is not used
  -- beyond its size, adding a message and an ack of any id lead to one; a change of the size sets
  -- it, and sends nothing beyond the new size.
  pub stays_within :
      (w : SendWnd) (msg : Option Ptr) (id n : ℕ)
      → w.always_send ≡ false
      → w.send_wnd_size ≤ 65535
      → 0 < w.cur_send_size
      → w.cur_send_size ≤ w.send_wnd_size
      → n ≤ 65535
      → let v = change_send_wnd_size begin n w in
        ((push_back begin msg w).cur_send_size ≤ w.send_wnd_size)
        × ((accept_ack begin id w).0.cur_send_size ≤ w.send_wnd_size)
        × (v.send_wnd_size ≡ n)
        × ((v.cur_send_size ≤ w.cur_send_size) ⊎ (v.cur_send_size ≤ n))
  stays_within w msg id n a word some_sent h small =
      let (sized, changed) = change-bound n w small a in
      (push_back-bound msg w word h, accept_ack-bound id w word a some_sent h, sized, changed)
