-- ===== src/PendAck/Map.antt =====
-- The ordered map of pending acks in common/PendAck.cpp.
use hudp.Common.{
  ℕ, ◌+◌, ◌≤◌, ◌≡◌, refl, sym, subst, ==_iff, Option, none, some, [], ◌∷◌, ◌==◌, if◌then◌else◌,
  arith, Bool-cases, inl, inr, ltb,
}
use hudp.PendAck.{AckMap, PendAck, insert, add_ack, add_ack_time}

-- The keys rise, from a bound on.
abbrev pub IsSortedFrom : ℕ → AckMap → Type 0
IsSortedFrom low [] = Unit
IsSortedFrom low ((k, t) ∷ m) = (low ≤ k) × IsSortedFrom (k + 1) m

abbrev pub lookup : ℕ → AckMap → Option ℕ
lookup id [] = none
lookup id ((k, t) ∷ m) = if id == k then some t else lookup id m

insert-IsSortedFrom :
    (id time low : ℕ) (m : AckMap)
    → low ≤ id
    → IsSortedFrom low m
    → IsSortedFrom low (insert id time m)
unfolding insert
insert-IsSortedFrom id time low [] h s = (h, tt)
insert-IsSortedFrom id time low ((k, t) ∷ m) h s = elim (Bool-cases (ltb id k)) [
  | inl before ↦ rw before (h, (ground arith, s.1))
  | inr not_before ↦ elim (Bool-cases (id == k)) [
    | inl same ↦
        rw (not_before, same)
          (h, subst (λ n. IsSortedFrom (n + 1) m) (sym ((==_iff id k).0 same)) s.1)
    | inr after ↦
        rw (not_before, after) (s.0, insert-IsSortedFrom id time (k + 1) m (ground arith) s.1)
  ]
]

lookup-insert :
    (id j time low : ℕ) (m : AckMap)
    → IsSortedFrom low m
    → lookup j (insert id time m) ≡ (if j == id then some time else lookup j m)
unfolding insert
lookup-insert id j time low [] s = refl
lookup-insert id j time low ((k, t) ∷ m) s = ground (arith, lookup-insert id j time (k + 1) m s.1)

-- `AddAck` keeps the keys in order, gives the new id its time (0 where none is given) and leaves
-- the times of all other ids as they were.
pub add_ack-lookup :
    (p : PendAck) (id j time : ℕ)
    → IsSortedFrom 0 p.ack_map
    → (IsSortedFrom 0 (add_ack_time id time p).0.ack_map)
      × (lookup j (add_ack_time id time p).0.ack_map
          ≡ (if j == id then some time else lookup j p.ack_map))
      × (IsSortedFrom 0 (add_ack id p).0.ack_map)
      × (lookup j (add_ack id p).0.ack_map ≡ (if j == id then some 0 else lookup j p.ack_map))
unfolding add_ack add_ack_time
add_ack-lookup p id j time s = (
  insert-IsSortedFrom id time 0 p.ack_map (omega arith) s,
  lookup-insert id j time 0 p.ack_map s,
  insert-IsSortedFrom id 0 0 p.ack_map (omega arith) s,
  lookup-insert id j 0 0 p.ack_map s,
)
