-- ===== src/MinMax/Tests.antt =====
-- Runs of net/controller/OsCommon.h.
use hudp.Common.{◌≡◌, refl}
use hudp.MinMax.{MinMax, minmax_get, minmax_running_max}

abbrev samples : MinMax
samples = record {
  s0 = record { t = 4; v = 90 };
  s1 = record { t = 7; v = 60 };
  s2 = record { t = 9; v = 50 };
}

-- The best sample has left the window, and the new one is the greatest of those that are left.
best_expired : minmax_get (minmax_running_max 10 15 70 samples) ≡ 70
unfolding minmax_get minmax_running_max
best_expired = refl
