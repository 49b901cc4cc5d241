-- ===== src/SocketControl/Missing.antt =====
-- Acks of a kind of message that this side has never sent, net/SocketImpl.cpp.
use hudp.Common.{
  ℕ, ◌≡◌, refl, true, false, List, [], ◌∷◌, Option, none, some, has, length, u32, leb, Bool-cases,
  inl, inr,
}
use hudp.Config.{hpf_with_reliable_ack, hpf_with_reliable_orderly_ack}
use hudp.Message.{Msg, Ptr, get_ack}
use hudp.SendWnd.{IdMap}
use hudp.SocketImpl.{WndIndex, wi_reliable, wi_reliable_orderly}
use hudp.SocketControl.{Control, wnd_at}
use hudp.SocketControl.Acks.{
  accept_each, accept_all, controller_process, ack_block, get_ack_to_send_wnd, last_rtt,
}

module _ (begin : IdMap → Option Ptr) where
  blocked :
      (stamp now : ℕ) (index : WndIndex) (ids times : List ℕ) (rtt : ℕ) (c : Control)
      → wnd_at index c ≡ none
      → elim (accept_all begin stamp now index ids times c) [
        | none ↦ none
        | some d ↦ controller_process begin stamp now index rtt (length ids) 0 d
      ]
        ≡ none
  unfolding accept_each accept_all controller_process
  blocked stamp now index ids times rtt c e = elim (Bool-cases (leb (length ids) 65535)) [
    | inr f ↦ rw (accept_all, f) refl
    | inl f ↦ rw (accept_all, f) (each ids times)
  ]
    where
      each :
          (ids times : List ℕ)
          → elim (accept_each begin stamp now index ids times c) [
            | none ↦ none
            | some d ↦ controller_process begin stamp now index rtt (length ids) 0 d
          ]
            ≡ none
      each [] times = rw (controller_process, e) refl
      each (id ∷ ids) [] = refl
      each (id ∷ ids) (time ∷ times) = rw (accept_each, e) refl

  ack_block-none :
      (stamp now : ℕ) (index : WndIndex) (m : Msg) (rtt : ℕ) (c : Control)
      → wnd_at index c ≡ none
      → ack_block begin stamp now index m rtt c ≡ none
  unfolding ack_block
  ack_block-none stamp now index m rtt c e =
      let (ids, times) = get_ack m [] [] in blocked stamp now index ids times (u32 rtt) c e

  -- A message with acks of a kind that this side has no window for always makes the source call a
  -- null pointer: with the flag of the reliable and orderly acks where that window is missing, and
  -- with that of the reliable acks alone where their window is missing, however many acks it has.
  pub get_ack_to_send_wnd-none :
      (stamp now : ℕ) (m : Msg) (c : Control)
      → let r = get_ack_to_send_wnd begin stamp now m c in
        (has m.head.flag hpf_with_reliable_orderly_ack ≡ true
          → c.wnd_reliable_orderly ≡ none
          → r ≡ none)
        × (has m.head.flag hpf_with_reliable_orderly_ack ≡ false
            → has m.head.flag hpf_with_reliable_ack ≡ true
            → c.wnd_reliable ≡ none
            → r ≡ none)
  unfolding get_ack_to_send_wnd
  get_ack_to_send_wnd-none stamp now m c =
      let (ids, times) = get_ack m [] [] in
      let rtt = last_rtt stamp ids times 0 in
      (
        λ a e.
            rw (get_ack_to_send_wnd, a, ack_block-none stamp now wi_reliable_orderly m rtt c e)
              refl,
        λ a b e.
            rw (get_ack_to_send_wnd, a, b, a, ack_block-none stamp now wi_reliable m 0 c e) refl,
      )
