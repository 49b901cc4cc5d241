-- ===== src/Rto/Deviation.antt =====
-- How the deviation and the smoothed time of common/Rto.cpp follow the samples.
use hudp.Common.{ℕ, ◌+◌, ◌-◌, ◌/◌, ◌≤◌, ◌<◌, ◌≡◌, arith}
use hudp.Rto.{Rto, set_rtt_time}

-- After a sample that lies within 2^31 of the smoothed time, the new smoothed time lies between
-- the two, at an eighth of the way (rounded down).
set_rtt_time-srtt :
    (rtt : ℕ) (r : Rto)
    → 0 < r.srtt
    → r.srtt < 2147483648
    → rtt < 2147483648
    → (r.srtt ≤ rtt → (set_rtt_time rtt r).srtt ≡ r.srtt + (rtt - r.srtt) / 8)
      × (rtt ≤ r.srtt → (set_rtt_time rtt r).srtt ≡ r.srtt - (r.srtt - rtt + 7) / 8)
unfolding set_rtt_time
set_rtt_time-srtt rtt r pos small small' = ground arith

-- A sample that differs from the smoothed time by at least the deviation raises the deviation by a
-- quarter of the excess; one that differs by less does not lower it, as the smoothing means to,
-- but raises it by nearly 2^30, since the difference wraps before it is divided.
set_rtt_time-mdev :
    (rtt : ℕ) (r : Rto)
    → 0 < r.srtt
    → r.srtt ≤ rtt
    → rtt < 1073741824
    → r.mdev < 1073741824
    → (r.mdev ≤ rtt - r.srtt → (set_rtt_time rtt r).mdev ≡ r.mdev + (rtt - r.srtt - r.mdev) / 4)
      × (rtt - r.srtt < r.mdev
          → (set_rtt_time rtt r).mdev + (r.mdev - (rtt - r.srtt) + 3) / 4 ≡ r.mdev + 1073741824)
unfolding set_rtt_time
set_rtt_time-mdev rtt r pos up small small' = ground arith

-- A sample moves the smoothed time by an eighth of the way towards it (rounded down). One that lies
-- above it by at least the deviation raises the deviation by a quarter of the excess; one that lies
-- closer does not lower it, as the smoothing means to, but raises it by nearly 2^30, since the
-- difference wraps before it is divided. All three numbers are below 2^30, and the smoothed time is
-- not 0.
pub set_rtt_time-follows :
    (rtt : ℕ) (r : Rto)
    → 0 < r.srtt
    → r.srtt < 1073741824
    → rtt < 1073741824
    → r.mdev < 1073741824
    → let q = set_rtt_time rtt r in
      (r.srtt ≤ rtt → q.srtt ≡ r.srtt + (rtt - r.srtt) / 8)
      × (rtt ≤ r.srtt → q.srtt ≡ r.srtt - (r.srtt - rtt + 7) / 8)
      × (r.srtt ≤ rtt → r.mdev ≤ rtt - r.srtt → q.mdev ≡ r.mdev + (rtt - r.srtt - r.mdev) / 4)
      × (r.srtt ≤ rtt
          → rtt - r.srtt < r.mdev
          → q.mdev + (r.mdev - (rtt - r.srtt) + 3) / 4 ≡ r.mdev + 1073741824)
set_rtt_time-follows rtt r pos small near dev =
    let moved = set_rtt_time-srtt rtt r pos (omega (arith, small)) (omega (arith, near)) in
    let spread = λ (up : r.srtt ≤ rtt). set_rtt_time-mdev rtt r pos up near dev in
    (moved.0, moved.1, λ up. (spread up).0, λ up. (spread up).1)

-- The largest deviation never falls, so after one such sample it stays above 2^29, whatever
-- samples follow.
pub set_rtt_time-mdev_max :
    (rtt : ℕ) (r : Rto)
    → (r.mdev_max ≤ (set_rtt_time rtt r).mdev_max)
      × ((set_rtt_time rtt r).mdev ≤ (set_rtt_time rtt r).mdev_max)
unfolding set_rtt_time
set_rtt_time-mdev_max rtt r = ground arith
