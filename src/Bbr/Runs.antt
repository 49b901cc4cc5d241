-- ===== src/Bbr/Runs.antt =====
-- Runs of `bbr_main` of net/controller/bbr/bbr.cpp from its constructor on.
use hudp.Common.{
  ℕ, ◌≤◌, ◌≡◌, inl, inr, refl, sym, ap, subst, ◌∙◌, Bool, false, arith, Bool-cases, ltb, ◌==◌,
}
use hudp.MinMax.{MinMax, minmax_get}
use hudp.Bbr.Block.{Bbr, bbr_probe_rtt}
use hudp.Bbr.Rate.{bbr_max_bw, bbr_bw, bbr_set_pacing_rate, bbr_bw_to_pacing_rate}
use hudp.Bbr.LongTerm.{bbr_lt_bw_sampling}
use hudp.Bbr.Cycle.{bbr_update_cycle_phase, bbr_check_drain, start_drain}
use hudp.Bbr.Model.{
  start_round, bbr_update_bw, bbr_check_full_bw_reached, bbr_update_min_rtt, bbr_update_model,
}
use hudp.Bbr.Main.{Ack, bbr_main}
use hudp.Bbr.Starting.{
  IsStarting, Keeps, sampling-Keeps, add_sample-Keeps, update_min_rtt-lem, IsSameBut-IsStarting,
}

pub start_round-starting : (delivered : ℕ) (b : Bbr) → IsStarting b → start_round delivered b ≡ b
unfolding start_round
start_round-starting delivered b s = rw s.cnt refl

pub IsStarting-no_round : (b : Bbr) → IsStarting b → IsStarting (record b { round_start = false })
IsStarting-no_round b s = record {
  cnt = s.cnt;
  full = s.full;
  seen = s.seen;
  round_done = s.round_done;
  modes = s.modes;
  window = s.window;
}

pub bbr_update_bw-Keeps :
    (rrt stamp delivered lost : ℕ) (app_limit : Bool) (b : Bbr)
    → IsStarting b
    → Keeps b (bbr_update_bw rrt stamp delivered lost app_limit b)
unfolding bbr_update_bw bbr_max_bw minmax_get
bbr_update_bw-Keeps rrt stamp delivered lost app_limit b s =
    let b0 : Bbr = record b { round_start = false } in
    let s0 = IsStarting-no_round b s in
    let q = sampling-Keeps stamp delivered lost app_limit b0 s0 refl in
    let c = bbr_lt_bw_sampling stamp delivered lost app_limit b0 in
    let a = add_sample-Keeps rrt delivered app_limit c q.starting q.no_round in
    elim (Bool-cases (rrt == 0)) [
      | inl e ↦
          rw e (record { starting = s0; no_round = refl; same_mode = refl; bw_up = omega arith })
      | inr e ↦
          rw (e, start_round-starting delivered b0 s0)
            (record {
              starting = a.starting;
              no_round = a.no_round;
              same_mode = a.same_mode ∙ q.same_mode;
              bw_up = omega (arith, q.bw_up, a.bw_up);
            })
    ]

cycle_phase-starting :
    (rate stamp inflight : ℕ) (loss : Bool) (b : Bbr)
    → IsStarting b
    → bbr_update_cycle_phase rate stamp inflight loss b ≡ b
unfolding bbr_update_cycle_phase
cycle_phase-starting rate stamp inflight loss b s = elim s.modes [ inl m ↦ simp m | inr m ↦ simp m ]

full_bw-starting :
    (app_limit : Bool) (b : Bbr)
    → IsStarting b
    → b.round_start ≡ false
    → bbr_check_full_bw_reached app_limit b ≡ b
unfolding bbr_check_full_bw_reached
full_bw-starting app_limit b s h = simp (s.full, h)

drain-starting :
    (stamp rate inflight : ℕ) (b : Bbr) → IsStarting b → bbr_check_drain stamp rate inflight b ≡ b
unfolding bbr_check_drain start_drain
drain-starting stamp rate inflight b s = elim s.modes [
  | inl m ↦ simp (s.full, m)
  | inr m ↦ simp (s.full, m)
]

bbr_set_pacing_rate-starting :
    (rtt wnd bw gain rate : ℕ) (b : Bbr)
    → IsStarting b
    → let r = bbr_set_pacing_rate rtt wnd bw gain rate b in (r.0 ≡ b) × (rate ≤ r.1)
unfolding bbr_set_pacing_rate
bbr_set_pacing_rate-starting rtt wnd bw gain rate b s =
    let p = bbr_bw_to_pacing_rate bw gain in
    rw s.seen (
      refl,
      rw s.full (elim (Bool-cases (ltb rate p)) [
        | inl e ↦ rw e (ground (arith, e))
        | inr e ↦ rw e (omega arith)
      ]),
    )

-- What one call does to a block that is starting.
pub record Starts (rate : ℕ) (b : Bbr) (r : Bbr × ℕ × ℕ) : Type 0 where
  pub starting : IsStarting r.0
  pub still_probing : b.mode ≡ bbr_probe_rtt → r.0.mode ≡ bbr_probe_rtt
  pub rate_up : rate ≤ r.2
  pub bw_up : bbr_max_bw b ≤ bbr_max_bw r.0

pub bbr_update_model-starting :
    (a : Ack) (wnd rate : ℕ) (b : Bbr)
    → IsStarting b
    → bbr_update_model a.clock rate a.inflight a.rrt a.delivered_mstamp a.delivered a.lost
        a.app_limit wnd b
      ≡ bbr_update_min_rtt a.clock a.delivered_mstamp a.inflight a.delivered a.rrt wnd
          (bbr_update_bw a.rrt a.delivered_mstamp a.delivered a.lost a.app_limit b)
unfolding bbr_update_model
bbr_update_model-starting a wnd rate b s =
    let b1 = bbr_update_bw a.rrt a.delivered_mstamp a.delivered a.lost a.app_limit b in
    let k = bbr_update_bw-Keeps a.rrt a.delivered_mstamp a.delivered a.lost a.app_limit b s in
    rw (
      cycle_phase-starting rate a.delivered_mstamp a.inflight (ltb 0 a.lost) b1 k.starting,
      full_bw-starting a.app_limit b1 k.starting k.no_round,
      drain-starting a.delivered_mstamp rate a.inflight b1 k.starting,
    )

pub bbr_main-Starts :
    (a : Ack) (wnd rate : ℕ) (b : Bbr) → IsStarting b → Starts rate b (bbr_main a wnd rate b)
unfolding bbr_main bbr_max_bw minmax_get
bbr_main-Starts a wnd rate b s =
    let b1 = bbr_update_bw a.rrt a.delivered_mstamp a.delivered a.lost a.app_limit b in
    let k = bbr_update_bw-Keeps a.rrt a.delivered_mstamp a.delivered a.lost a.app_limit b s in
    let r = bbr_update_min_rtt a.clock a.delivered_mstamp a.inflight a.delivered a.rrt wnd b1 in
    let m =
      update_min_rtt-lem a.clock a.delivered_mstamp a.inflight a.delivered a.rrt wnd b1 k.starting
        k.no_round in
    let t = IsSameBut-IsStarting b1 r.0 m.0 k.starting k.no_round in
    let p = bbr_set_pacing_rate-starting a.rrt r.1 (bbr_bw r.0) r.0.pacing_gain rate r.0 t.0 in
    rw (bbr_update_model-starting a wnd rate b s) (record {
      starting = subst IsStarting (sym p.0) t.0;
      still_probing = λ h. ap (λ b. b.mode) p.0 ∙ t.2 (k.same_mode ∙ h);
      rate_up = p.1;
      bw_up =
          omega
            (arith, k.bw_up, ap (λ (m : MinMax). m.s0.v) m.0.5, ap (λ (b : Bbr). b.bw.s0.v) p.0);
    })
