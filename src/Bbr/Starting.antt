-- ===== src/Bbr/Starting.antt =====
-- What the controller of net/controller/bbr/bbr.cpp can reach. `rtt_cnt` starts at 0 and is counted
-- up only where it is above 1000 already.
use hudp.Common.{
  ℕ, ◌≤◌, ◌≡◌, ◌⊎◌, inl, inr, refl, sym, ap, subst, ◌∙◌, Bool, false, arith, Bool-cases, not, ◌||◌,
  ◌&&◌, leb, ltb, ◌==◌, u32, ◌*◌, ◌/◌,
}
use hudp.MinMax.{minmax_running_max, minmax_get}
use hudp.MinMax.Windowed.{IsWindow, minmax_running_max-IsWindow}
use hudp.Bbr.Block.{Bbr, bbr_startup, bbr_probe_rtt, bw_unit, mode_code}
use hudp.Bbr.Rate.{bbr_max_bw}
use hudp.Bbr.LongTerm.{bbr_lt_bw_sampling}
use hudp.Bbr.Window.{bbr_save_cwnd}
use hudp.Bbr.Model.{
  bbr_update_min_rtt, is_filter_expired, enter_probe_rtt, take_min_rtt, stay_in_probe_rtt,
  add_sample,
}
use hudp.Bbr.Sampling.{IsSame, bbr_lt_bw_sampling-IsSame}

-- The controller counts no rounds, has not filled the pipe, has not looked at a round trip for its
-- rate, and is starting up or probing the round trip; its bandwidth samples are all of round 0.
pub record IsStarting (b : Bbr) : Type 0 where
  pub cnt : b.rtt_cnt ≡ 0
  pub full : b.full_bw_reached ≡ false
  pub seen : b.has_seen_rtt ≡ false
  pub round_done : b.probe_rtt_round_done ≡ false
  pub modes : (b.mode ≡ bbr_startup) ⊎ (b.mode ≡ bbr_probe_rtt)
  pub window : IsWindow 10 0 b.bw

-- A step that keeps this, starts no round and does not lower the bandwidth.
pub record Keeps (b c : Bbr) : Type 0 where
  pub starting : IsStarting c
  pub no_round : c.round_start ≡ false
  pub same_mode : c.mode ≡ b.mode
  pub bw_up : bbr_max_bw b ≤ bbr_max_bw c

pub sampling-Keeps :
    (stamp delivered lost : ℕ) (app_limit : Bool) (b : Bbr)
    → IsStarting b
    → b.round_start ≡ false
    → Keeps b (bbr_lt_bw_sampling stamp delivered lost app_limit b)
unfolding bbr_max_bw minmax_get
sampling-Keeps stamp delivered lost app_limit b s h =
    let e = bbr_lt_bw_sampling-IsSame stamp delivered lost app_limit b h in
    let r = bbr_lt_bw_sampling stamp delivered lost app_limit b in
    record {
      starting = record {
        cnt = e.0 ∙ s.cnt;
        full = e.2 ∙ s.full;
        seen = e.3 ∙ s.seen;
        round_done = e.6 ∙ s.round_done;
        modes = subst (λ m. (m ≡ bbr_startup) ⊎ (m ≡ bbr_probe_rtt)) (sym e.4) s.modes;
        window = subst (IsWindow 10 0) (sym e.5) s.window;
      };
      no_round = e.1 ∙ h;
      same_mode = e.4;
      bw_up = omega (arith, ap (λ m. minmax_get m) e.5);
    }

pub add_sample-Keeps :
    (rrt delivered : ℕ) (app_limit : Bool) (b : Bbr)
    → IsStarting b
    → b.round_start ≡ false
    → Keeps b (add_sample rrt delivered app_limit b)
unfolding add_sample bbr_max_bw minmax_get
add_sample-Keeps rrt delivered app_limit b s h =
    let cur_bw = u32 (delivered * bw_unit) / rrt in
    let w =
      minmax_running_max-IsWindow 10 0 b.rtt_cnt cur_bw b.bw s.window (omega arith)
        (omega (arith, s.cnt)) in
    elim (Bool-cases (not app_limit || leb b.bw.s0.v cur_bw)) [
      | inr e ↦ rw e (record { starting = s; no_round = h; same_mode = refl; bw_up = omega arith })
      | inl e ↦ rw e (record {
        starting = record {
          cnt = s.cnt;
          full = s.full;
          seen = s.seen;
          round_done = s.round_done;
          modes = s.modes;
          window =
              subst (λ t. IsWindow 10 t (minmax_running_max 10 b.rtt_cnt cur_bw b.bw)) s.cnt w.0;
        };
        no_round = h;
        same_mode = refl;
        bw_up = omega (arith, w.3 (omega (arith, s.cnt)));
      })
    ]

-- The same of a block that may have gone on to probe the round trip.
abbrev pub IsSameBut : Bbr → Bbr → Type 0
IsSameBut b c =
    (c.rtt_cnt ≡ b.rtt_cnt)
    × (c.round_start ≡ b.round_start)
    × (c.full_bw_reached ≡ b.full_bw_reached)
    × (c.has_seen_rtt ≡ b.has_seen_rtt)
    × ((c.mode ≡ b.mode) ⊎ (c.mode ≡ bbr_probe_rtt))
    × (c.bw ≡ b.bw)
    × (c.probe_rtt_round_done ≡ false)

take_min_rtt-IsSame :
    (clock : ℕ → ℕ) (expired : Bool) (rtt : ℕ) (b : Bbr)
    → IsSame b (take_min_rtt clock expired rtt b)
unfolding take_min_rtt
take_min_rtt-IsSame clock expired rtt b = elim (Bool-cases (leb rtt b.min_rtt_us || expired)) [
  | inl e ↦ rw e (refl, refl, refl, refl, refl, refl, refl)
  | inr e ↦ rw e (refl, refl, refl, refl, refl, refl, refl)
]

enter_probe_rtt-IsSameBut :
    (expired : Bool) (wnd : ℕ) (b : Bbr)
    → b.probe_rtt_round_done ≡ false
    → IsSameBut b (enter_probe_rtt expired wnd b)
unfolding enter_probe_rtt bbr_save_cwnd
enter_probe_rtt-IsSameBut expired wnd b d =
    elim (Bool-cases (expired && not b.idle_restart && not (mode_code b.mode == 3))) [
      | inl e ↦ rw e (refl, refl, refl, refl, inr refl, refl, d)
      | inr e ↦ rw e (refl, refl, refl, refl, inl refl, refl, d)
    ]

stay_in_probe_rtt-IsSameBut :
    (clock : ℕ → ℕ) (stamp inflight delivered wnd : ℕ) (b : Bbr)
    → b.round_start ≡ false
    → b.probe_rtt_round_done ≡ false
    → let r = stay_in_probe_rtt clock stamp inflight delivered wnd b in
      IsSameBut b r.0 × (r.1 ≡ wnd)
unfolding stay_in_probe_rtt
stay_in_probe_rtt-IsSameBut clock stamp inflight delivered wnd b h d =
    let same : IsSameBut b b = (refl, refl, refl, refl, inl refl, refl, d) in
    elim (Bool-cases (not (mode_code b.mode == 3))) [
      | inl e ↦ rw e (same, refl)
      | inr e ↦ rw e (elim (Bool-cases ((b.probe_rtt_done_stamp == 0) && leb inflight 4)) [
        | inl f ↦ rw f ((refl, refl, refl, refl, inl refl, refl, refl), refl)
        | inr f ↦ rw f (elim (Bool-cases (not (b.probe_rtt_done_stamp == 0))) [
          | inl g ↦ rw (g, h, d) ((refl, refl, refl, refl, inl refl, refl, refl), refl)
          | inr g ↦ rw g (same, refl)
        ])
      ])
    ]

pub IsSameBut-IsStarting :
    (b c : Bbr)
    → IsSameBut b c
    → IsStarting b
    → b.round_start ≡ false
    → IsStarting c × (c.round_start ≡ false) × (b.mode ≡ bbr_probe_rtt → c.mode ≡ bbr_probe_rtt)
IsSameBut-IsStarting b c e s h = (
  record {
    cnt = e.0 ∙ s.cnt;
    full = e.2 ∙ s.full;
    seen = e.3 ∙ s.seen;
    round_done = e.6;
    modes = elim e.4 [
      | inl m ↦ subst (λ m. (m ≡ bbr_startup) ⊎ (m ≡ bbr_probe_rtt)) (sym m) s.modes
      | inr m ↦ inr m
    ];
    window = subst (IsWindow 10 0) (sym e.5) s.window;
  },
  e.1 ∙ h,
  λ p. elim e.4 [ inl m ↦ m ∙ p | inr m ↦ m ],
)

pub update_min_rtt-lem :
    (clock : ℕ → ℕ) (stamp inflight delivered rtt wnd : ℕ) (b : Bbr)
    → IsStarting b
    → b.round_start ≡ false
    → let r = bbr_update_min_rtt clock stamp inflight delivered rtt wnd b in
      IsSameBut b r.0 × (r.1 ≡ wnd)
unfolding bbr_update_min_rtt
update_min_rtt-lem clock stamp inflight delivered rtt wnd b s h =
    let x = is_filter_expired clock b in
    let b1 = take_min_rtt clock x rtt b in
    let t = take_min_rtt-IsSame clock x rtt b in
    let b2 = enter_probe_rtt x wnd b1 in
    let e = enter_probe_rtt-IsSameBut x wnd b1 (t.6 ∙ s.round_done) in
    let r = stay_in_probe_rtt clock stamp inflight delivered wnd b2 in
    let (q, w) =
      stay_in_probe_rtt-IsSameBut clock stamp inflight delivered wnd b2 (e.1 ∙ t.1 ∙ h) e.6 in
    let all : IsSameBut b r.0 = (
      q.0 ∙ e.0 ∙ t.0,
      q.1 ∙ e.1 ∙ t.1,
      q.2 ∙ e.2 ∙ t.2,
      q.3 ∙ e.3 ∙ t.3,
      elim q.4 [
        | inl m ↦ elim e.4 [ inl n ↦ inl (m ∙ n ∙ t.4) | inr n ↦ inr (m ∙ n) ]
        | inr m ↦ inr m
      ],
      q.5 ∙ e.5 ∙ t.5,
      q.6,
    ) in
    elim (Bool-cases (ltb 0 delivered)) [ inl p ↦ rw p (all, w) | inr p ↦ rw p (all, w) ]
