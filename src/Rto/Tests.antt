-- ===== src/Rto/Tests.antt =====
-- The theorems on common/Rto.cpp at a concrete estimate.
use hudp.Common.{◌+◌, ◌-◌, ◌/◌, ◌≡◌, ◌≤◌, ◌<◌, refl, arith}
use hudp.Rto.{Rto, new_rto, set_rtt_time}
use hudp.Rto.Deviation.{set_rtt_time-follows}

-- A first sample of 100 and a second one of 100: the deviation jumps to 2^30 + 37.
two_samples : (set_rtt_time 100 (set_rtt_time 100 new_rto)).mdev ≡ 1073741861
unfolding set_rtt_time
two_samples = refl

abbrev settled : Rto
settled = record { srtt = 100; mdev = 50; mdev_max = 50; cur_rto = 300 }

set_rtt_time-follows_example :
    let q = set_rtt_time 140 settled in
    (100 ≤ 140 → q.srtt ≡ 100 + (140 - 100) / 8)
    × (140 ≤ 100 → q.srtt ≡ 100 - (100 - 140 + 7) / 8)
    × (100 ≤ 140 → 50 ≤ 140 - 100 → q.mdev ≡ 50 + (140 - 100 - 50) / 4)
    × (100 ≤ 140 → 140 - 100 < 50 → q.mdev + (50 - (140 - 100) + 3) / 4 ≡ 50 + 1073741824)
set_rtt_time-follows_example =
    set_rtt_time-follows 140 settled (omega arith) (omega arith) (omega arith) (omega arith)
