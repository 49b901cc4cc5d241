-- ===== src/PendAck/Take.antt =====
-- Which acks `GetAck` of common/PendAck.cpp takes for a message of limited size.
use hudp.Common.{
  ℕ, ◌+◌, ◌≤◌, ◌<◌, ◌≡◌, refl, sym, ap, ◌∙◌, Bool, false, List, [], ◌∷◌, ◌++◌, ◌==◌, leb, u16,
  if◌then◌else◌, arith, Bool-cases, inl, inr, append-nil, append_assoc,
}
use hudp.PendAck.{AckMap, PendAck, Collected, get_loop, get_ack, get_from, still_continuous}

-- The ids of some entries, and their times where they have one.
abbrev pub keys : AckMap → List ℕ
keys [] = []
keys ((id, time) ∷ m) = id ∷ keys m

abbrev pub stamps : AckMap → List ℕ
stamps [] = []
stamps ((id, time) ∷ m) = if time == 0 then stamps m else time ∷ stamps m

-- The bytes that an entry takes in a message.
abbrev pub entry_cost : ℕ → ℕ
entry_cost time = if time == 0 then 2 else 10

abbrev pub cost : AckMap → ℕ
cost [] = 0
cost ((id, time) ∷ m) = entry_cost time + cost m

-- The first entry that was left alone, if any; `limit` stands for "no entry is left".
abbrev pub first_cost : ℕ → AckMap → ℕ
first_cost limit [] = limit
first_cost limit ((id, time) ∷ m) = entry_cost time

-- Whether an entry was left alone, as a number.
abbrev pub stopped_early : AckMap → ℕ
stopped_early [] = 0
stopped_early (entry ∷ m) = 1

-- What the loop has done, from `size` bytes on.
pub record Taken (limit : ℕ) (acks times : List ℕ) (size : ℕ) (m : AckMap) (c : Collected)
    : Type 0 where
  pub taken : AckMap
  pub split : m ≡ taken ++ c.rest
  pub ids : c.ack_vec ≡ acks ++ keys taken
  pub sent : c.time_vec ≡ times ++ stamps taken
  pub fits : size + cost taken < limit
  pub full : limit ≤ size + cost taken + first_cost limit c.rest
  pub counted : size + cost taken + stopped_early c.rest ≤ c.cur_szie
  pub overcounted : c.cur_szie ≤ size + cost taken + first_cost 0 c.rest

Taken-next :
    (limit : ℕ) (acks times times' : List ℕ) (size size' id time : ℕ) (m : AckMap) (c : Collected)
    → times' ≡ (if time == 0 then times else times ++ (time ∷ []))
    → size' ≡ size + entry_cost time
    → Taken limit (acks ++ (id ∷ [])) times' size' m c
    → Taken limit acks times size ((id, time) ∷ m) c
Taken-next limit acks times times' size size' id time m c e e' t = record {
  taken = (id, time) ∷ t.taken;
  split = ap (λ r. (id, time) ∷ r) t.split;
  ids = t.ids ∙ append_assoc acks (id ∷ []) (keys t.taken);
  sent = ground (arith, t.sent, append_assoc times (time ∷ []) (stamps t.taken));
  fits = omega (arith, t.fits);
  full = omega (arith, t.full);
  counted = omega (arith, t.counted);
  overcounted = omega (arith, t.overcounted);
}

Taken-stop :
    (limit : ℕ) (acks times : List ℕ) (continuity : Bool) (size size' id time : ℕ) (m : AckMap)
    → size < limit
    → limit ≤ size'
    → size' ≤ size + entry_cost time
    → Taken limit acks times size ((id, time) ∷ m) (record {
      ack_vec = acks;
      time_vec = times;
      continuity = continuity;
      cur_szie = size';
      rest = (id, time) ∷ m;
    })
Taken-stop limit acks times continuity size size' id time m h h' h'' = record {
  taken = [];
  split = refl;
  ids = sym (append-nil acks);
  sent = sym (append-nil times);
  fits = omega arith;
  full = omega arith;
  counted = omega arith;
  overcounted = omega arith;
}

pub get_loop-Taken :
    (limit : ℕ) (acks times : List ℕ) (continuity : Bool) (prev size : ℕ) (m : AckMap)
    → size < limit
    → limit ≤ 65000
    → Taken limit acks times size m (get_loop limit acks times continuity prev size m)
unfolding get_loop
get_loop-Taken limit acks times continuity prev size [] h small = record {
  taken = [];
  split = refl;
  ids = sym (append-nil acks);
  sent = sym (append-nil times);
  fits = omega arith;
  full = omega arith;
  counted = omega arith;
  overcounted = omega arith;
}
get_loop-Taken limit acks times continuity prev size ((id, time) ∷ m) h small =
    elim (Bool-cases (time == 0)) [
      | inl plain ↦ elim (Bool-cases (leb limit (u16 (size + 2)))) [
        | inl stop ↦
            rw (plain, stop)
              (Taken-stop limit acks times continuity size _ id time m h (ground arith)
                (ground arith))
        | inr go ↦
            rw (plain, go)
              (Taken-next limit acks times times size (u16 (size + 2)) id time m _ (rw plain)
                (ground arith)
                (get_loop-Taken limit (acks ++ (id ∷ [])) times
                  (still_continuous prev id continuity) id (u16 (size + 2)) m (ground arith) small))
      ]
      | inr timed ↦ elim (Bool-cases (leb limit (u16 (size + 8)))) [
        | inl stop ↦
            rw (timed, stop)
              (Taken-stop limit acks times continuity size _ id time m h (ground arith)
                (ground arith))
        | inr go ↦ elim (Bool-cases (leb limit (u16 (u16 (size + 8) + 2)))) [
          | inl stop' ↦
              rw (timed, go, stop')
                (Taken-stop limit acks times continuity size _ id time m h (ground arith)
                  (ground arith))
          | inr go' ↦
              rw (timed, go, go')
                (Taken-next limit acks times (times ++ (time ∷ [])) size (u16 (u16 (size + 8) + 2))
                  id time m _ (rw timed) (ground arith)
                  (get_loop-Taken limit (acks ++ (id ∷ [])) (times ++ (time ∷ []))
                    (still_continuous prev id continuity) id (u16 (u16 (size + 8) + 2)) m
                    (ground arith) small))
        ]
      ]
    ]

get_loop-continuity :
    (limit : ℕ) (acks times : List ℕ) (prev size : ℕ) (m : AckMap)
    → (get_loop limit acks times false prev size m).continuity ≡ false
unfolding get_loop
get_loop-continuity limit acks times prev size [] = refl
get_loop-continuity limit acks times prev size ((id, time) ∷ m) = ground (
  arith,
  get_loop-continuity limit (acks ++ (id ∷ [])) times id (u16 (size + 2)) m,
  get_loop-continuity limit (acks ++ (id ∷ [])) (times ++ (time ∷ [])) id (u16 (u16 (size + 8) + 2))
      m,
)

get_from-takes :
    (limit : ℕ) (m : AckMap) (p : PendAck)
    → p.ack_map ≡ m
    → 0 < limit
    → limit ≤ 65000
    → let (p', acks, times, continuity, done) = get_from m [] [] false limit p in
      (taken : AckMap) × (m ≡ taken ++ p'.ack_map)
      × (acks ≡ keys taken)
      × (times ≡ stamps taken)
      × (cost taken < limit)
      × (limit ≤ cost taken + first_cost limit p'.ack_map)
      × (continuity ≡ false)
unfolding get_from
get_from-takes limit [] p e pos small =
    ([], sym e, refl, refl, omega arith, rw e (omega arith), refl)
get_from-takes limit (entry ∷ m) p e pos small =
    let t = get_loop-Taken limit [] [] false 0 0 (entry ∷ m) pos small in
    (
      t.taken,
      t.split,
      t.ids,
      t.sent,
      omega (arith, t.fits),
      omega (arith, t.full),
      ground (arith, get_loop-continuity limit [] [] 0 0 (entry ∷ m)),
    )

-- With a limit of 1 to 65000 bytes and empty vectors, `GetAck` takes the acks with the smallest ids:
-- their ids and their times go into the vectors, the others stay. What it takes needs fewer bytes than
-- the limit, and it takes as many as that allows. The flag is never raised: passed in as false, it comes back false.
pub get_ack-takes :
    (limit : ℕ) (p : PendAck)
    → 0 < limit
    → limit ≤ 65000
    → let (p', acks, times, continuity, done) = get_ack [] [] false limit p in
      (taken : AckMap) × (p.ack_map ≡ taken ++ p'.ack_map)
      × (acks ≡ keys taken)
      × (times ≡ stamps taken)
      × (cost taken < limit)
      × (limit ≤ cost taken + first_cost limit p'.ack_map)
      × (continuity ≡ false)
unfolding get_ack
get_ack-takes limit p pos small = get_from-takes limit p.ack_map p refl pos small
