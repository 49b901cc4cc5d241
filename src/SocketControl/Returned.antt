-- ===== src/SocketControl/Returned.antt =====
-- What the loop over the acks of a message leaves alone, net/SocketImpl.cpp.
use hudp.Common.{
  leb, true, ℕ, ◌≤◌, ◌≡◌, ◌⊎◌, refl, ◌∙◌, inl, inr, List, [], ◌∷◌, Option, some, length, arith,
}
use hudp.Message.{Ptr}
use hudp.SendWnd.{SendWnd, IdMap, accept_ack}
use hudp.SocketImpl.{WndIndex, wi_orderly, wi_reliable, wi_reliable_orderly}
use hudp.SocketControl.{Control, wnd_at, put_wnd, lent, return_wnd}
use hudp.SocketControl.Acks.{accept_one, accept_each, accept_all}
use hudp.SocketControl.Frame.{IsFramed, IsFramed-by, carry_out-IsFramed}

-- The controller and the pacing rate are the same, and so are the windows but the one of an index,
-- which is there.
pub record Accepts (index : WndIndex) (c d : Control) : Type 0 where
  pub bbr_kept : d.bbr ≡ c.bbr
  pub rate_kept : d.pacing.pacing_rate ≡ c.pacing.pacing_rate
  pub there : (v : SendWnd) × (wnd_at index d ≡ some v)
  pub others_kept : (j : WndIndex) → (j ≡ index) ⊎ (wnd_at j d ≡ wnd_at j c)

pub wnd_at-IsFramed : (j : WndIndex) (c d : Control) → IsFramed c d → wnd_at j d ≡ wnd_at j c
wnd_at-IsFramed wi_orderly c d f = f.same_orderly
wnd_at-IsFramed wi_reliable c d f = f.same_reliable
wnd_at-IsFramed wi_reliable_orderly c d f = f.same_both

-- A write to the other members.
pub wnd_at-eq :
    (j : WndIndex) (c d : Control)
    → d.wnd_orderly ≡ c.wnd_orderly
    → d.wnd_reliable ≡ c.wnd_reliable
    → d.wnd_reliable_orderly ≡ c.wnd_reliable_orderly
    → wnd_at j d ≡ wnd_at j c
wnd_at-eq wi_orderly c d o r b = o
wnd_at-eq wi_reliable c d o r b = r
wnd_at-eq wi_reliable_orderly c d o r b = b

put_wnd-Accepts :
    (index : WndIndex) (w : SendWnd) (c : Control)
    → Accepts index c (put_wnd index w c) × (wnd_at index (put_wnd index w c) ≡ some w)
put_wnd-Accepts wi_orderly w c =
    (record { bbr_kept = refl; rate_kept = refl; there = (w, refl); others_kept = others }, refl)
  where
    others : (j : WndIndex) → (j ≡ wi_orderly) ⊎ (wnd_at j (put_wnd wi_orderly w c) ≡ wnd_at j c)
    others wi_orderly = inl refl
    others wi_reliable = inr refl
    others wi_reliable_orderly = inr refl
put_wnd-Accepts wi_reliable w c =
    (record { bbr_kept = refl; rate_kept = refl; there = (w, refl); others_kept = others }, refl)
  where
    others : (j : WndIndex) → (j ≡ wi_reliable) ⊎ (wnd_at j (put_wnd wi_reliable w c) ≡ wnd_at j c)
    others wi_orderly = inr refl
    others wi_reliable = inl refl
    others wi_reliable_orderly = inr refl
put_wnd-Accepts wi_reliable_orderly w c =
    (record { bbr_kept = refl; rate_kept = refl; there = (w, refl); others_kept = others }, refl)
  where
    others :
        (j : WndIndex)
        → (j ≡ wi_reliable_orderly) ⊎ (wnd_at j (put_wnd wi_reliable_orderly w c) ≡ wnd_at j c)
    others wi_orderly = inr refl
    others wi_reliable = inr refl
    others wi_reliable_orderly = inl refl

-- A step that changes neither the windows, nor the controller, nor the pacing rate.
Accepts-framed :
    {index : WndIndex} {c d e : Control} → Accepts index c d → IsFramed d e → Accepts index c e
Accepts-framed {index} {c} {d} {e} a f = record {
  bbr_kept = f.same_bbr ∙ a.bbr_kept;
  rate_kept = f.same_rate ∙ a.rate_kept;
  there = (a.there.0, wnd_at-IsFramed index d e f ∙ a.there.1);
  others_kept =
      λ j. elim (a.others_kept j) [ inl h ↦ inl h | inr h ↦ inr (wnd_at-IsFramed j d e f ∙ h) ];
}

framed-Accepts :
    {index : WndIndex} {c d e : Control} → IsFramed c d → Accepts index d e → Accepts index c e
framed-Accepts {index} {c} {d} {e} f a = record {
  bbr_kept = a.bbr_kept ∙ f.same_bbr;
  rate_kept = a.rate_kept ∙ f.same_rate;
  there = a.there;
  others_kept =
      λ j. elim (a.others_kept j) [ inl h ↦ inl h | inr h ↦ inr (h ∙ wnd_at-IsFramed j c d f) ];
}

pub return_wnd-Accepts :
    (stamp now : ℕ) (index : WndIndex) (w : SendWnd) (c : Control)
    → let d = return_wnd stamp now index w c in Accepts index c d × (wnd_at index d ≡ some w)
unfolding return_wnd
return_wnd-Accepts stamp now index w c =
    let c1 : Control = record c { store = w.store } in
    let c2 = put_wnd index w c1 in
    let p = put_wnd-Accepts index w c1 in
    let f = carry_out-IsFramed stamp now w.calls c2 in
    let a = framed-Accepts {c = c} {d = c1} (IsFramed-by c c1 refl refl refl refl refl) p.0 in
    (Accepts-framed a f, wnd_at-IsFramed index c2 _ f ∙ p.1)

Accepts-trans :
    {index : WndIndex} {c d e : Control} → Accepts index c d → Accepts index d e → Accepts index c e
Accepts-trans f g = record {
  bbr_kept = g.bbr_kept ∙ f.bbr_kept;
  rate_kept = g.rate_kept ∙ f.rate_kept;
  there = g.there;
  others_kept = λ j. elim (f.others_kept j) [
    | inl e ↦ inl e
    | inr e ↦ elim (g.others_kept j) [ inl h ↦ inl h | inr h ↦ inr (h ∙ e) ]
  ];
}

module _ (begin : IdMap → Option Ptr) where
  -- The change of the members beside the windows does not touch the frame.
  pub accept_one-Accepts :
      (stamp now : ℕ) (index : WndIndex) (id time : ℕ) (w : SendWnd) (c : Control)
      → Accepts index c (accept_one begin stamp now index id time w c)
  unfolding accept_one
  accept_one-Accepts stamp now index id time w c =
      let v = (accept_ack begin id (lent w c)).0 in
      let d = return_wnd stamp now index v c in
      Accepts-framed {d = d} (return_wnd-Accepts stamp now index v c).0
        (IsFramed-by d _ refl refl refl refl refl)

  accept_each-Accepts :
      (stamp now : ℕ) (index : WndIndex) (ids times : List ℕ) (c : Control)
      → length ids ≤ length times
      → (w : SendWnd) × (wnd_at index c ≡ some w)
      → (d : Control) × (accept_each begin stamp now index ids times c ≡ some d) × Accepts index c d
  unfolding accept_each
  accept_each-Accepts stamp now index [] times c h w = (
    c,
    refl,
    record { bbr_kept = refl; rate_kept = refl; there = w; others_kept = λ j. inr refl },
  )
  accept_each-Accepts stamp now index (id ∷ ids) [] c h w = absurd (omega (arith, h))
  accept_each-Accepts stamp now index (id ∷ ids) (time ∷ times) c h (w, e) =
      let d = accept_one begin stamp now index id time w c in
      let one = accept_one-Accepts stamp now index id time w c in
      let (last, f, more) =
        accept_each-Accepts stamp now index ids times d (omega (arith, h)) one.there in
      (last, rw (accept_each, e, f) refl, Accepts-trans one more)

  pub accept_all-Accepts :
      (stamp now : ℕ) (index : WndIndex) (ids times : List ℕ) (c : Control)
      → (length ids ≤ length times) × (length ids ≤ 65535)
      → (w : SendWnd) × (wnd_at index c ≡ some w)
      → (d : Control) × (accept_all begin stamp now index ids times c ≡ some d) × Accepts index c d
  unfolding accept_all
  accept_all-Accepts stamp now index ids times c (h, l) w =
      let short : leb (length ids) 65535 ≡ true = ground (arith, l) in
      rw short (accept_each-Accepts stamp now index ids times c h w)
