-- ===== src/Bbr/Idle.antt =====
-- The controller of net/controller/bbr/bbr.cpp when it is always told that nothing was delivered.
use hudp.Common.{
  ℕ, ◌/◌, ◌<◌, ◌≡◌, inl, inr, refl, sym, ap, subst, ◌∙◌, Bool, true, false, arith, Bool-cases, not,
  ◌||◌, leb, ltb, ◌==◌,
}
use native.Mathlib.Nat.{div-le_self}
use hudp.MinMax.{MinMax, minmax_get}
use hudp.MinMax.Windowed.{minmax_running_max-IsWindow}
use hudp.Bbr.Block.{Bbr, bbr_startup}
use hudp.Bbr.Rate.{bbr_max_bw}
use hudp.Bbr.LongTerm.{
  bbr_reset_lt_bw_sampling, bbr_reset_lt_bw_sampling_interval, sample_interval, bbr_lt_bw_sampling,
  count_round,
}
use hudp.Bbr.Model.{
  bbr_update_bw, bbr_update_min_rtt, is_filter_expired, enter_probe_rtt, take_min_rtt,
  stay_in_probe_rtt, add_sample,
}
use hudp.Bbr.Sampling.{sampling-cases, bbr_lt_bw_sampling-IsSame}
use hudp.Bbr.Starting.{IsStarting, sampling-Keeps}
use hudp.Bbr.Runs.{IsStarting-no_round, start_round-starting}

-- The long-term estimate is not in use and will not be: an interval that is sampled is of fewer
-- rounds than one may end at.
abbrev pub IsQuiet : Bbr → Type 0
IsQuiet b =
    (b.round_start ≡ false)
    × (b.lt_use_bw ≡ false)
    × (b.lt_is_sampling ≡ true → b.lt_rtt_cnt < 4)
    × (b.idle_restart ≡ true)

count_round-quiet : (b : Bbr) → b.round_start ≡ false → count_round b ≡ b
unfolding count_round
count_round-quiet b n = simp n

reset-IsQuiet :
    (stamp delivered lost : ℕ) (b : Bbr)
    → b.round_start ≡ false
    → b.idle_restart ≡ true
    → IsQuiet (bbr_reset_lt_bw_sampling stamp delivered lost b)
unfolding bbr_reset_lt_bw_sampling bbr_reset_lt_bw_sampling_interval
reset-IsQuiet stamp delivered lost b n i = (n, refl, λ h. omega arith, i)

sample_interval-IsQuiet :
    (stamp lost : ℕ) (app_limit : Bool) (b : Bbr)
    → b.lt_rtt_cnt < 4
    → IsQuiet b
    → IsQuiet (sample_interval stamp 0 lost app_limit b)
unfolding sample_interval
sample_interval-IsQuiet stamp lost true b s q = reset-IsQuiet stamp 0 lost b q.0 q.3
sample_interval-IsQuiet stamp lost false b s q =
    let below : ltb b.lt_rtt_cnt 4 ≡ true = ground (arith, s) in
    rw (count_round-quiet b q.0, below) q

start-IsQuiet :
    (stamp lost : ℕ) (b : Bbr)
    → IsQuiet b
    → let c : Bbr = record (bbr_reset_lt_bw_sampling_interval stamp 0 lost b) {
      lt_is_sampling = true;
    } in
      IsQuiet c × (c.lt_rtt_cnt < 4)
unfolding bbr_reset_lt_bw_sampling_interval
start-IsQuiet stamp lost b q = ((q.0, q.1, λ h. omega arith, q.3), omega arith)

sampling-IsQuiet :
    (stamp lost : ℕ) (app_limit : Bool) (b : Bbr)
    → IsQuiet b
    → IsQuiet (bbr_lt_bw_sampling stamp 0 lost app_limit b)
sampling-IsQuiet stamp lost app_limit b q =
    let c = start-IsQuiet stamp lost b q in
    let r = sampling-cases stamp 0 lost app_limit b in
    elim (Bool-cases b.lt_is_sampling) [
      | inl e ↦
          subst IsQuiet (sym (r.1 q.1 e)) (sample_interval-IsQuiet stamp lost app_limit b (q.2 e) q)
      | inr e ↦ elim (Bool-cases (lost == 0)) [
        | inl f ↦ subst IsQuiet (sym (r.2 q.1 e f)) q
        | inr f ↦
            subst IsQuiet (sym (r.3 q.1 e f))
              (sample_interval-IsQuiet stamp lost app_limit _ c.1 c.0)
      ]
    ]

add_sample-IsQuiet :
    (rrt : ℕ) (app_limit : Bool) (b : Bbr)
    → IsStarting b
    → IsQuiet b
    → b.bw.s0.v ≡ 0
    → let c = add_sample rrt 0 app_limit b in IsQuiet c × (c.bw.s0.v ≡ 0)
unfolding add_sample minmax_get
add_sample-IsQuiet rrt app_limit b s q z =
    let w =
      minmax_running_max-IsWindow 10 0 b.rtt_cnt (0 / rrt) b.bw s.window (omega arith)
        (omega (arith, s.cnt)) in
    elim (Bool-cases (not app_limit || leb (bbr_max_bw b) (0 / rrt))) [
      | inl e ↦ rw e (q, omega (arith, w.2, z, div-le_self 0 rrt))
      | inr e ↦ rw e (q, z)
    ]

-- The controller is starting up, has seen no bandwidth, and takes itself to be idle.
pub record IsIdle (b : Bbr) : Type 0 where
  pub starting : IsStarting b
  pub startup : b.mode ≡ bbr_startup
  pub unused : b.lt_use_bw ≡ false
  pub short : b.lt_is_sampling ≡ true → b.lt_rtt_cnt < 4
  pub restart : b.idle_restart ≡ true
  pub zero_bw : b.bw.s0.v ≡ 0

sampling-bw :
    (stamp lost : ℕ) (app_limit : Bool) (b : Bbr)
    → b.round_start ≡ false
    → (bbr_lt_bw_sampling stamp 0 lost app_limit b).bw.s0.v ≡ b.bw.s0.v
sampling-bw stamp lost app_limit b h =
    ap (λ (m : MinMax). m.s0.v) (bbr_lt_bw_sampling-IsSame stamp 0 lost app_limit b h).5

pub bbr_update_bw-IsQuiet :
    (rrt stamp lost : ℕ) (app_limit : Bool) (b : Bbr)
    → IsIdle b
    → let c = bbr_update_bw rrt stamp 0 lost app_limit b in IsQuiet c × (c.bw.s0.v ≡ 0)
unfolding bbr_update_bw
bbr_update_bw-IsQuiet rrt stamp lost app_limit b s =
    let b0 : Bbr = record b { round_start = false } in
    let s0 : IsStarting b0 = IsStarting-no_round b s.starting in
    let q0 : IsQuiet b0 = (refl, s.unused, s.short, s.restart) in
    let c = bbr_lt_bw_sampling stamp 0 lost app_limit b0 in
    let k = sampling-Keeps stamp 0 lost app_limit b0 s0 refl in
    let q = sampling-IsQuiet stamp lost app_limit b0 q0 in
    elim (Bool-cases (rrt == 0)) [
      | inl e ↦ rw e (q0, s.zero_bw)
      | inr e ↦
          rw (e, start_round-starting 0 b0 s0)
            (add_sample-IsQuiet rrt app_limit c k.starting q
              (sampling-bw stamp lost app_limit b0 refl ∙ s.zero_bw))
    ]

pub take_min_rtt-IsQuiet :
    (clock : ℕ → ℕ) (expired : Bool) (rtt : ℕ) (b : Bbr)
    → IsQuiet b
    → let c = take_min_rtt clock expired rtt b in IsQuiet c × (c.mode ≡ b.mode) × (c.bw ≡ b.bw)
unfolding take_min_rtt
take_min_rtt-IsQuiet clock expired rtt b q = elim (Bool-cases (leb rtt b.min_rtt_us || expired)) [
  | inl e ↦ rw e (q, refl, refl)
  | inr e ↦ rw e (q, refl, refl)
]

enter_probe_rtt-idle :
    (expired : Bool) (wnd : ℕ) (b : Bbr) → b.idle_restart ≡ true → enter_probe_rtt expired wnd b ≡ b
unfolding enter_probe_rtt
enter_probe_rtt-idle true wnd b i = simp i
enter_probe_rtt-idle false wnd b i = refl

stay_in_probe_rtt-startup :
    (clock : ℕ → ℕ) (stamp inflight delivered wnd : ℕ) (b : Bbr)
    → b.mode ≡ bbr_startup
    → stay_in_probe_rtt clock stamp inflight delivered wnd b ≡ (b, wnd)
unfolding stay_in_probe_rtt
stay_in_probe_rtt-startup clock stamp inflight delivered wnd b m = simp m

pub bbr_update_min_rtt-idle :
    (clock : ℕ → ℕ) (stamp inflight rtt wnd : ℕ) (b : Bbr)
    → b.mode ≡ bbr_startup
    → IsQuiet b
    → bbr_update_min_rtt clock stamp inflight 0 rtt wnd b
      ≡ (take_min_rtt clock (is_filter_expired clock b) rtt b, wnd)
unfolding bbr_update_min_rtt
bbr_update_min_rtt-idle clock stamp inflight rtt wnd b m q =
    let x = is_filter_expired clock b in
    let c = take_min_rtt clock x rtt b in
    let t = take_min_rtt-IsQuiet clock x rtt b q in
    rw
      (
        enter_probe_rtt-idle x wnd c t.0.3,
        stay_in_probe_rtt-startup clock stamp inflight 0 wnd c (t.1 ∙ m),
      )
      refl

pub take_min_rtt-IsStarting :
    (clock : ℕ → ℕ) (expired : Bool) (rtt : ℕ) (b : Bbr)
    → IsStarting b
    → IsStarting (take_min_rtt clock expired rtt b)
unfolding take_min_rtt
take_min_rtt-IsStarting clock expired rtt b s =
    elim (Bool-cases (leb rtt b.min_rtt_us || expired)) [
      | inl e ↦ rw e (record {
        cnt = s.cnt;
        full = s.full;
        seen = s.seen;
        round_done = s.round_done;
        modes = s.modes;
        window = s.window;
      })
      | inr e ↦ rw e s
    ]
