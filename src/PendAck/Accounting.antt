-- ===== src/PendAck/Accounting.antt =====
-- The byte count `_cur_size` of common/PendAck.cpp against the entries that it stands for.
use hudp.Common.{ℕ, ◌+◌, ◌≤◌, ◌<◌, ◌≡◌, refl, ap, ◌∙◌, false, [], ◌∷◌, ◌++◌, arith}
use hudp.PendAck.{AckMap, PendAck, get_ack, get_from, get_loop}
use hudp.PendAck.Take.{cost, first_cost, stopped_early, get_loop-Taken}

cost-append : (xs ys : AckMap) → cost (xs ++ ys) ≡ cost xs + cost ys
cost-append [] ys = omega arith
cost-append ((id, time) ∷ xs) ys = omega (arith, cost-append xs ys)

first_cost-le : (m : AckMap) → first_cost 0 m ≤ cost m
first_cost-le [] = omega arith
first_cost-le ((id, time) ∷ m) = omega arith

get_from-undercounts :
    (limit : ℕ) (m : AckMap) (p : PendAck)
    → p.ack_map ≡ m
    → p.cur_size ≡ cost m
    → cost m < 4294967296
    → 0 < limit
    → limit ≤ 65000
    → let p' = (get_from m [] [] false limit p).0 in
      p'.cur_size + stopped_early p'.ack_map ≤ cost p'.ack_map
unfolding get_from
get_from-undercounts limit [] p e exact word pos small = rw e (omega arith)
get_from-undercounts limit (entry ∷ m) p e exact word pos small =
    let c = get_loop limit [] [] false 0 0 (entry ∷ m) in
    let t = get_loop-Taken limit [] [] false 0 0 (entry ∷ m) pos small in
    let whole : cost (entry ∷ m) ≡ cost t.taken + cost c.rest =
      ap cost t.split ∙ cost-append t.taken c.rest in
    omega (arith, whole, t.counted, t.overcounted, first_cost-le c.rest)

-- If the byte count is exact before a call of `GetAck` that leaves acks behind, it is too small
-- after the call: the entry at which the loop stops is subtracted in part or in whole, and stays
-- in the map. If all acks are taken the count is not too large.
pub get_ack-undercounts :
    (limit : ℕ) (p : PendAck)
    → p.cur_size ≡ cost p.ack_map
    → cost p.ack_map < 4294967296
    → 0 < limit
    → limit ≤ 65000
    → let p' = (get_ack [] [] false limit p).0 in
      p'.cur_size + stopped_early p'.ack_map ≤ cost p'.ack_map
unfolding get_ack
get_ack-undercounts limit p exact word pos small =
    get_from-undercounts limit p.ack_map p refl exact word pos small
