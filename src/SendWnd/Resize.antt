-- ===== src/SendWnd/Resize.antt =====
-- The size of the window of common/SendWnd.cpp.
use hudp.Common.{
  ℕ, zero, suc, ◌≡◌, refl, Option, Option-cases, Bool-cases, inl, inr, ltb, ◌==◌, arith,
}
use hudp.Message.{Ptr}
use hudp.PriorityQueue.{pop, size}
use hudp.SendWnd.{
  SendWnd, IdMap, push_back_to_send_wnd, send_next_loop, send_next, send_and_ack,
  change_send_wnd_size,
}

module _ (begin : IdMap → Option Ptr) where
  send_next_loop-size :
      (fuel : ℕ) (w : SendWnd) → (send_next_loop begin fuel w).send_wnd_size ≡ w.send_wnd_size
  unfolding send_next_loop push_back_to_send_wnd
  send_next_loop-size zero w = refl
  send_next_loop-size (suc fuel) w =
      let popped : SendWnd = record w { priority_queue = (pop w.priority_queue).0 } in
      elim (Bool-cases (ltb w.cur_send_size w.send_wnd_size)) [
        | inr e ↦ rw (e, send_next_loop) refl
        | inl e ↦
            rw (e, send_next_loop)
              (elim (Option-cases (pop w.priority_queue).1) [
                | inl f ↦ rw f refl
                | inr (temp, f) ↦
                    rw f (send_next_loop-size fuel (push_back_to_send_wnd begin temp popped))
              ])
      ]

  -- `ChangeSendWndSize` leaves a window of just that size, whatever it sends.
  pub change_send_wnd_size-size :
      (n : ℕ) (w : SendWnd) → (change_send_wnd_size begin n w).send_wnd_size ≡ n
  unfolding change_send_wnd_size send_and_ack send_next
  change_send_wnd_size-size n w = elim (Bool-cases (w.send_wnd_size == n)) [
    | inl e ↦ rw e (ground (arith, e))
    | inr e ↦
        rw e (send_next_loop-size (suc (size w.priority_queue)) (record w { send_wnd_size = n }))
  ]
