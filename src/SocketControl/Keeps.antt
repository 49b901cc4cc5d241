-- ===== src/SocketControl/Keeps.antt =====
-- What the calls on the socket of net/SocketImpl.cpp do to an idle controller.
use hudp.Common.{
  ℕ, ◌<◌, ◌≤◌, leb, leb→le, ◌≡◌, ◌∙◌, refl, sym, subst, inl, inr, true, Bool-cases, Option-cases,
  Option, some, List, [], ◌∷◌, length, u32, has, arith, or_make, if◌then◌else◌,
}
use hudp.Config.{
  init_send_wnd_size, htf_orderly, htf_reliable, htf_reliable_orderly, hpf_with_reliable_ack,
  hpf_with_reliable_orderly_ack,
}
use hudp.Message.{Msg, Ptr, get_ack}
use hudp.Bbr.Idle.{IsIdle}
use hudp.SendWnd.{IdMap, push_back}
use hudp.SocketImpl.{WndIndex, wi_orderly, wi_reliable, wi_reliable_orderly}
use hudp.SocketControl.{
  Control, wnd_at, lent, new_send_wnd, send_message, add_to_send_wnd, add_ack, is_orderly,
}
use hudp.SocketControl.Acks.{
  accept_one, accept_each, accept_all, controller_process, ack_block, get_ack_to_send_wnd, last_rtt,
}
use hudp.SocketControl.Frame.{IsFramed, add_ack-IsFramed, send_pacing_msg-IsFramed}
use hudp.SocketControl.Returned.{Accepts, return_wnd-Accepts, accept_one-Accepts}
use hudp.SocketControl.Resized.{controller_process-Resizes}

-- A step that the controller and the pacing rate come out of as they went in, or with the controller
-- as idle as it was.
pub record Keeps (c d : Control) : Type 0 where
  pub idle : IsIdle c.bbr → IsIdle d.bbr
  pub rate : d.pacing.pacing_rate ≡ c.pacing.pacing_rate

same-Keeps :
    {c d : Control} → d.bbr ≡ c.bbr → d.pacing.pacing_rate ≡ c.pacing.pacing_rate → Keeps c d
same-Keeps b r = record { idle = λ i. subst IsIdle (sym b) i; rate = r }

pub IsFramed-Keeps : {c d : Control} → IsFramed c d → Keeps c d
IsFramed-Keeps f = same-Keeps f.same_bbr f.same_rate

Keeps-trans : {c d e : Control} → Keeps c d → Keeps d e → Keeps c e
Keeps-trans f g = record { idle = λ i. g.idle (f.idle i); rate = g.rate ∙ f.rate }

Accepts-Keeps : {index : WndIndex} {c d : Control} → Accepts index c d → Keeps c d
Accepts-Keeps a = same-Keeps a.bbr_kept a.rate_kept

module _ (begin : IdMap → Option Ptr) where
  add_to_send_wnd-Keeps :
      (first_id stamp now : ℕ) (index : WndIndex) (msg : Ptr) (c : Control)
      → Keeps c (add_to_send_wnd begin first_id stamp now index msg c)
  unfolding add_to_send_wnd
  add_to_send_wnd-Keeps first_id stamp now index msg c =
      let w =
        or_make (wnd_at index c) (new_send_wnd first_id init_send_wnd_size (is_orderly index)) in
      Accepts-Keeps (return_wnd-Accepts stamp now index (push_back begin (some msg) (lent w c)) c).0

  pub send_message-Keeps :
      (first_id stamp now : ℕ) (msg : Ptr) (c : Control)
      → Keeps c (send_message begin first_id stamp now msg c)
  unfolding send_message
  send_message-Keeps first_id stamp now msg c =
      let flag = (c.store msg).head.flag in
      let d = add_ack msg c in
      elim (Bool-cases (has flag htf_orderly)) [
        | inl e ↦ rw e (add_to_send_wnd-Keeps first_id stamp now wi_orderly msg c)
        | inr e ↦ elim (Bool-cases (has flag htf_reliable)) [
          | inl f ↦ rw (e, f) (add_to_send_wnd-Keeps first_id stamp now wi_reliable msg c)
          | inr f ↦ elim (Bool-cases (has flag htf_reliable_orderly)) [
            | inl g ↦
                rw (e, f, g) (add_to_send_wnd-Keeps first_id stamp now wi_reliable_orderly msg c)
            | inr g ↦
                rw (e, f, g)
                  (Keeps-trans (IsFramed-Keeps (add_ack-IsFramed msg c))
                    (IsFramed-Keeps (send_pacing_msg-IsFramed stamp now msg true d)))
          ]
        ]
      ]

  accept_each-Keeps :
      (stamp now : ℕ) (index : WndIndex) (ids times : List ℕ) (c d : Control)
      → accept_each begin stamp now index ids times c ≡ some d
      → Keeps c d
  unfolding accept_each
  accept_each-Keeps stamp now index [] times c d e =
      let same : c ≡ d = ground (arith, e) in subst (Keeps c) same (same-Keeps refl refl)
  accept_each-Keeps stamp now index (id ∷ ids) [] c d e = absurd (ground (arith, e))
  accept_each-Keeps stamp now index (id ∷ ids) (time ∷ times) c d e =
      elim (Option-cases (wnd_at index c)) [
        | inl f ↦ absurd (ground (arith, rw (accept_each, f) at e))
        | inr (w, f) ↦
            let c1 = accept_one begin stamp now index id time w c in
            Keeps-trans (Accepts-Keeps (accept_one-Accepts begin stamp now index id time w c))
              (accept_each-Keeps stamp now index ids times c1 d (rw (accept_each, f) at e))
      ]

  accept_all-Keeps :
      (stamp now : ℕ) (index : WndIndex) (ids times : List ℕ) (c d : Control)
      → accept_all begin stamp now index ids times c ≡ some d
      → Keeps c d × (length ids ≤ 65535)
  unfolding accept_all
  accept_all-Keeps stamp now index ids times c d e = elim (Bool-cases (leb (length ids) 65535)) [
    | inl f ↦
        (accept_each-Keeps stamp now index ids times c d (rw f at e), leb→le (length ids) 65535 f)
    | inr f ↦ absurd (ground (arith, rw f at e))
  ]

  controller_process-Keeps :
      (stamp now : ℕ) (index : WndIndex) (rtt acked : ℕ) (c d : Control)
      → acked < 4294967296
      → controller_process begin stamp now index rtt acked 0 c ≡ some d
      → IsIdle c.bbr
      → IsIdle d.bbr × (d.pacing.pacing_rate ≡ c.pacing.pacing_rate)
  unfolding controller_process
  controller_process-Keeps stamp now index rtt acked c d h e s =
      elim (Option-cases (wnd_at index c)) [
        | inl f ↦ absurd (ground (arith, rw (controller_process, f) at e))
        | inr w ↦
            let (d1, e1, r) = controller_process-Resizes begin stamp now index rtt acked c h s w in
            let same : d1 ≡ d = ground (arith, e, e1) in
            subst (λ (x : Control). IsIdle x.bbr × (x.pacing.pacing_rate ≡ c.pacing.pacing_rate))
              same (r.idle, r.rate)
      ]

  ack_block-Keeps :
      (stamp now : ℕ) (index : WndIndex) (m : Msg) (rtt_time : ℕ) (c d : Control)
      → ack_block begin stamp now index m rtt_time c ≡ some d
      → IsIdle c.bbr
      → IsIdle d.bbr × (d.pacing.pacing_rate ≡ c.pacing.pacing_rate)
  unfolding ack_block
  ack_block-Keeps stamp now index m rtt_time c d e s =
      let (ids, times) = get_ack m [] [] in
      elim (Option-cases (accept_all begin stamp now index ids times c)) [
        | inl f ↦ absurd (ground (arith, rw (ack_block, f) at e))
        | inr (c1, f) ↦
            let (k, l) = accept_all-Keeps stamp now index ids times c c1 f in
            let (i, r) =
              controller_process-Keeps stamp now index (u32 rtt_time) (length ids) c1 d
                (omega (arith, l)) (rw (ack_block, f) at e) (k.idle s) in
            (i, r ∙ k.rate)
      ]

  pub get_ack_to_send_wnd-Keeps :
      (stamp now : ℕ) (m : Msg) (c d : Control)
      → get_ack_to_send_wnd begin stamp now m c ≡ some d
      → IsIdle c.bbr
      → IsIdle d.bbr × (d.pacing.pacing_rate ≡ c.pacing.pacing_rate)
  unfolding get_ack_to_send_wnd
  get_ack_to_send_wnd-Keeps stamp now m c d e s =
      let (ids, times) = get_ack m [] [] in
      let flag = m.head.flag in
      let rtt = last_rtt stamp ids times 0 in
      elim (Bool-cases (has flag hpf_with_reliable_orderly_ack)) [
        | inl a ↦ elim (Option-cases (ack_block begin stamp now wi_reliable_orderly m rtt c)) [
          | inl f ↦ absurd (ground (arith, rw (get_ack_to_send_wnd, a, f) at e))
          | inr (c1, f) ↦
              let (i, r) = ack_block-Keeps stamp now wi_reliable_orderly m rtt c c1 f s in
              let (j, q) = second rtt c1 (rw (get_ack_to_send_wnd, a, f, a) at e) i in (j, q ∙ r)
        ]
        | inr a ↦ second 0 c (rw (get_ack_to_send_wnd, a, a) at e) s
      ]
    where
      second :
          (rtt : ℕ) (c1 : Control)
          → (if has m.head.flag hpf_with_reliable_ack
              then ack_block begin stamp now wi_reliable m rtt c1
              else some c1)
            ≡ some d
          → IsIdle c1.bbr
          → IsIdle d.bbr × (d.pacing.pacing_rate ≡ c1.pacing.pacing_rate)
      second rtt c1 e i = elim (Bool-cases (has m.head.flag hpf_with_reliable_ack)) [
        | inl b ↦ ack_block-Keeps stamp now wi_reliable m rtt c1 d (rw b at e) i
        | inr b ↦
            let same : c1 ≡ d = ground (arith, e, b) in
            subst (λ (x : Control). IsIdle x.bbr × (x.pacing.pacing_rate ≡ c1.pacing.pacing_rate))
              same (i, refl)
      ]
