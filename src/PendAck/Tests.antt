-- ===== src/PendAck/Tests.antt =====
-- Runs of common/PendAck.cpp, after utest/Ut_PendAck.cpp, and the theorems at concrete acks.
use hudp.Common.{◌+◌, ◌≡◌, ◌≤◌, ◌<◌, refl, [], ◌∷◌, ◌++◌, true, false, arith, ids_from, length}
use hudp.PendAck.{AckMap, PendAck, new_pend_ack, add_ack, insert, get_ack, get_all_ack}
use hudp.PendAck.{get_all_loop}
use hudp.PendAck.Take.{keys, stamps, cost, first_cost, stopped_early, get_ack-takes}
use hudp.PendAck.Accounting.{get_ack-undercounts}
use hudp.PendAck.Continuity.{get_all_ack-lem}

-- The ids of the unit test, added in its order: the smallest id comes back first.
wrapped_ids :
    (get_all_ack [] [] false (add_ack 0 (add_ack 65535 (add_ack 65534 new_pend_ack).0).0).0).1
    ≡ 0 ∷ 65534 ∷ 65535 ∷ []
unfolding get_all_ack get_all_loop add_ack insert
wrapped_ids = refl

abbrev three : PendAck
three = record { cur_size = 30; ack_map = (4, 90) ∷ (5, 91) ∷ (6, 92) ∷ [] }

abbrev zero_first : PendAck
zero_first = record { cur_size = 20; ack_map = (0, 90) ∷ (50, 91) ∷ [] }

-- A gap behind id 0 is not noticed.
gap_after_zero : (get_all_ack [] [] false zero_first).3 ≡ true
unfolding get_all_ack get_all_loop
gap_after_zero = refl

get_ack-takes_example :
    let (p', acks, times, continuity, done) = get_ack [] [] false 25 three in
    (taken : AckMap) × (three.ack_map ≡ taken ++ p'.ack_map)
    × (acks ≡ keys taken)
    × (times ≡ stamps taken)
    × (cost taken < 25)
    × (25 ≤ cost taken + first_cost 25 p'.ack_map)
    × (continuity ≡ false)
get_ack-takes_example = get_ack-takes 25 three (omega arith) (omega arith)

-- The count of what `GetAck` leaves behind is too small by the entry at which it stops.
counted_twice :
    let p' = (get_ack [] [] false 25 three).0 in
    p'.cur_size + stopped_early p'.ack_map ≤ cost p'.ack_map
counted_twice = get_ack-undercounts 25 three refl (omega arith) (omega arith) (omega arith)

get_all_ack-lem_example :
    let (p', acks, times, continuity, done) = get_all_ack [] [] false three in
    (acks ≡ 4 ∷ 5 ∷ 6 ∷ [])
    × (times ≡ 90 ∷ 91 ∷ 92 ∷ [])
    × (p' ≡ new_pend_ack)
    × (0 < 4 → continuity ≡ true → (acks ≡ ids_from 4 (length acks)) × (2 ≤ length acks))
    × (0 < 4 → acks ≡ ids_from 4 (length acks) → 2 ≤ length acks → continuity ≡ true)
get_all_ack-lem_example =
    get_all_ack-lem 4 90 ((5, 91) ∷ (6, 92) ∷ []) false three refl (omega arith) (omega arith)
