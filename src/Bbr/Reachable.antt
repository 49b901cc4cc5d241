-- ===== src/Bbr/Reachable.antt =====
-- What a controller of net/controller/bbr/bbr.cpp that was made by its constructor can do.
use hudp.Common.{ℕ, ◌≤◌, ◌≡◌, ◌⊎◌, inl, refl, false, arith}
use hudp.MinMax.{minmax_reset}
use hudp.Bbr.Block.{Bbr, bbr_startup, bbr_probe_rtt}
use hudp.Bbr.Rate.{bbr_max_bw}
use hudp.Bbr.Cycle.{bbr_reset_startup_mode}
use hudp.Bbr.Main.{Ack, bbr_init, bbr_main}
use hudp.Bbr.Starting.{IsStarting}
use hudp.Bbr.Runs.{bbr_main-Starts}
use hudp.Bbr.Bounds.{bbr_main-window}

-- A controller after its constructor and some calls of `bbr_main`.
pub data Reached : Bbr → Type 0 where
  started : (now : ℕ) (memory : Bbr) → Reached (bbr_init now memory)
  driven : {b : Bbr} (a : Ack) (wnd rate : ℕ) → Reached b → Reached (bbr_main a wnd rate b).0

pub bbr_init-IsStarting : (now : ℕ) (memory : Bbr) → IsStarting (bbr_init now memory)
unfolding bbr_init bbr_reset_startup_mode minmax_reset
bbr_init-IsStarting now memory = record {
  cnt = refl;
  full = refl;
  seen = refl;
  round_done = refl;
  modes = inl refl;
  window = record {
    best = omega arith;
    second = omega arith;
    first_time = omega arith;
    second_time = omega arith;
    last_time = omega arith;
    within = omega arith;
  };
}

Reached-IsStarting : {b : Bbr} → Reached b → IsStarting b
Reached-IsStarting (started now memory) = bbr_init-IsStarting now memory
Reached-IsStarting (driven {b} a wnd rate r) =
    (bbr_main-Starts a wnd rate b (Reached-IsStarting r)).starting

-- A controller never leaves the start-up but to probe the round trip, from which it never comes
-- back: after any number of acks its mode is STARTUP or PROBE_RTT and it has not found the pipe
-- full, and every further ack lowers neither the pacing rate nor the maximum that `bbr_max_bw` keeps of
-- the measured bandwidths (the estimate `bbr_bw`, which may be the long-term one, can fall); once it
-- probes the round trip it does so after every ack, and every window that it sets is at most 4.
pub Reached-never_full :
    {b : Bbr} (a : Ack) (wnd rate : ℕ)
    → Reached b
    → let r = bbr_main a wnd rate b in
      ((b.mode ≡ bbr_startup) ⊎ (b.mode ≡ bbr_probe_rtt))
      × (b.full_bw_reached ≡ false)
      × (b.mode ≡ bbr_probe_rtt → (r.0.mode ≡ bbr_probe_rtt) × (r.1 ≤ 4))
      × (rate ≤ r.2)
      × (bbr_max_bw b ≤ bbr_max_bw r.0)
Reached-never_full {b} a wnd rate h =
    let s = Reached-IsStarting h in
    let r = bbr_main-Starts a wnd rate b s in
    (
      s.modes,
      s.full,
      λ h. (r.still_probing h, (bbr_main-window a wnd rate b).1 (r.still_probing h)),
      r.rate_up,
      r.bw_up,
    )
