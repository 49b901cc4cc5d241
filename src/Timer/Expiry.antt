-- ===== src/Timer/Expiry.antt =====
-- What the timer of common/Timer.cpp holds, by expiration time.
use hudp.Common.{
  ℕ, ◌+◌, ◌≤◌, ◌<◌, ◌≡◌, refl, none, List, [], ◌∷◌, ◌++◌, arith, ◌==◌, if◌then◌else◌, or_make, ltb,
  Bool-cases, inl, inr,
}
use hudp.Message.{Ptr}
use hudp.Timer.{TimerMap, push_at, find_at, erase_at}

-- The messages that run out at a time, in the order in which they were added.
abbrev pub due : ℕ → TimerMap → List Ptr
due key m = or_make (find_at key m) []

-- The keys rise, and all of them lie above a bound.
abbrev pub IsRisingFrom : ℕ → TimerMap → Type 0
IsRisingFrom low [] = Unit
IsRisingFrom low ((k, l) ∷ m) = (low ≤ k) × IsRisingFrom (k + 1) m

pub IsRisingFrom-weaken : (a b : ℕ) (m : TimerMap) → a ≤ b → IsRisingFrom b m → IsRisingFrom a m
IsRisingFrom-weaken a b [] h r = r
IsRisingFrom-weaken a b ((k, l) ∷ m) h r = (omega arith, r.1)

pub push_at-IsRisingFrom :
    (low key : ℕ) (msg : Ptr) (m : TimerMap)
    → low ≤ key
    → IsRisingFrom low m
    → IsRisingFrom low (push_at key msg m)
unfolding push_at
push_at-IsRisingFrom low key msg [] h r = (h, tt)
push_at-IsRisingFrom low key msg ((k, l) ∷ m) h r = elim (Bool-cases (ltb key k)) [
  | inl e ↦ rw e (h, (ground (arith, e), r.1))
  | inr e ↦ rw e (elim (Bool-cases (key == k)) [
    | inl f ↦ rw f r
    | inr f ↦ rw f (r.0, push_at-IsRisingFrom (k + 1) key msg m (ground (arith, e, f)) r.1)
  ])
]

find_at-below : (low key : ℕ) (m : TimerMap) → key < low → IsRisingFrom low m → find_at key m ≡ none
unfolding find_at
find_at-below low key [] h r = refl
find_at-below low key ((k, l) ∷ m) h r =
    ground (arith, h, r.0, find_at-below (k + 1) key m (omega (arith, r.0)) r.1)

pub due-erase_at :
    (low key j : ℕ) (m : TimerMap)
    → IsRisingFrom low m
    → due j (erase_at key m) ≡ (if j == key then [] else due j m)
unfolding erase_at find_at
due-erase_at low key j [] r = ground arith
due-erase_at low key j ((k, l) ∷ m) r =
    let rest = due-erase_at (k + 1) key j m r.1 in
    let below = λ (h : j < k + 1). find_at-below (k + 1) j m h r.1 in
    elim (Bool-cases (key == k)) [
      | inl e ↦ elim (Bool-cases (j == k)) [
        | inl f ↦ rw (e, below (ground (arith, f))) ground (arith, e, f)
        | inr f ↦ rw e ground (arith, e, f)
      ]
      | inr e ↦
          rw e (elim (Bool-cases (j == k)) [
            | inl f ↦ ground (arith, e, f)
            | inr f ↦ rw (f, rest) refl
          ])
    ]

pub due-push_at :
    (low key j : ℕ) (msg : Ptr) (m : TimerMap)
    → IsRisingFrom low m
    → due j (push_at key msg m) ≡ (if j == key then due j m ++ (msg ∷ []) else due j m)
unfolding push_at find_at
due-push_at low key j msg [] r = ground arith
due-push_at low key j msg ((k, l) ∷ m) r =
    let rest = due-push_at (k + 1) key j msg m r.1 in
    let below = λ (h : j < k + 1). find_at-below (k + 1) j m h r.1 in
    elim (Bool-cases (ltb key k)) [
      | inl e ↦ elim (Bool-cases (j == key)) [
        | inl f ↦ rw (e, f, below (ground (arith, e, f))) ground (arith, e, f)
        | inr f ↦ rw (e, f) refl
      ]
      | inr e ↦ rw e (elim (Bool-cases (key == k)) [
        | inl f ↦ ground (arith, e, f)
        | inr f ↦ rw f (elim (Bool-cases (j == k)) [
          | inl g ↦ ground (arith, f, g)
          | inr g ↦ rw (g, rest) refl
        ])
      ])
    ]
