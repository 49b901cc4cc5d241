-- ===== src/IncrementalId/Tests.antt =====
-- The theorems on common/IncrementalId.cpp at ids on both sides of the wrap.
use hudp.Common.{◌≡◌, true, false, arith}
use hudp.IncrementalId.{is_bigger_than, is_smaller_than}
use hudp.IncrementalId.WrapOrder.{after, after-is_bigger}

after-is_bigger_example :
    (is_bigger_than (after 65530 10) 65530 ≡ true)
    × (is_bigger_than 65530 (after 65530 10) ≡ false)
    × (is_smaller_than 65530 (after 65530 10) ≡ true)
after-is_bigger_example = after-is_bigger 65530 10 (omega arith) (omega arith) (omega arith)
