-- ===== src/Bbr/Tests.antt =====
-- The theorems on net/controller/bbr/bbr.cpp at a concrete controller.
use hudp.Common.{◌≡◌, ◌≤◌, ◌<◌, ◌⊎◌, false}
use hudp.Bbr.Block.{Bbr, bbr_startup, bbr_probe_rtt}
use hudp.Bbr.Rate.{bbr_max_bw}
use hudp.Bbr.Main.{Ack, bbr_init, bbr_main}
use hudp.Bbr.Bounds.{bbr_main-window}
use hudp.Bbr.Zeroed.{zeroed}
use hudp.Bbr.Reachable.{started, driven, Reached-never_full}

abbrev ack : Ack
ack = record {
  clock = λ n. 1000;
  inflight = 3;
  rrt = 40;
  acked = 1;
  delivered_mstamp = 1000;
  delivered = 2;
  lost = 0;
  app_limit = false;
}

abbrev made : Bbr
made = bbr_init 1000 zeroed

abbrev once : Bbr
once = (bbr_main ack 4 0 made).0

bbr_main-window_example :
    ((bbr_main ack 4 0 made).1 ≤ 65535)
    × (once.mode ≡ bbr_probe_rtt → (bbr_main ack 4 0 made).1 ≤ 4)
    × (0 < 1 → 4 ≤ (bbr_main ack 4 0 made).1)
bbr_main-window_example = bbr_main-window ack 4 0 made

Reached-never_full_example :
    let r = bbr_main ack 4 0 once in
    ((once.mode ≡ bbr_startup) ⊎ (once.mode ≡ bbr_probe_rtt))
    × (once.full_bw_reached ≡ false)
    × (once.mode ≡ bbr_probe_rtt → (r.0.mode ≡ bbr_probe_rtt) × (r.1 ≤ 4))
    × (0 ≤ r.2)
    × (bbr_max_bw once ≤ bbr_max_bw r.0)
Reached-never_full_example = Reached-never_full ack 4 0 (driven ack 4 0 (started 1000 zeroed))
