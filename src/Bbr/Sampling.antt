-- ===== src/Bbr/Sampling.antt =====
-- What the long-term samples of net/controller/bbr/bbr.cpp leave alone.
use hudp.Common.{
  ℕ, ◌≡◌, inl, inr, refl, sym, subst, ◌∙◌, Bool, true, false, arith, Bool-cases, ◌==◌,
}
use hudp.Bbr.Block.{Bbr, bbr_probe_bw, mode_code}
use hudp.Bbr.LongTerm.{
  bbr_reset_lt_bw_sampling, bbr_reset_lt_bw_sampling_interval, bbr_lt_bw_interval_done,
  end_interval, sample_interval, use_lt_bw, bbr_lt_bw_sampling, count_round,
}
use hudp.Bbr.Model.{}

-- The parts of the block that the modes depend on are the same in both.
abbrev pub IsSame : Bbr → Bbr → Type 0
IsSame b c =
    (c.rtt_cnt ≡ b.rtt_cnt)
    × (c.round_start ≡ b.round_start)
    × (c.full_bw_reached ≡ b.full_bw_reached)
    × (c.has_seen_rtt ≡ b.has_seen_rtt)
    × (c.mode ≡ b.mode)
    × (c.bw ≡ b.bw)
    × (c.probe_rtt_round_done ≡ b.probe_rtt_round_done)

end_interval-IsSame :
    (stamp delivered lost : ℕ) (b : Bbr) → IsSame b (end_interval stamp delivered lost b)
unfolding end_interval bbr_lt_bw_interval_done bbr_reset_lt_bw_sampling
end_interval-IsSame stamp delivered lost b = (
  ground arith,
  ground arith,
  ground arith,
  ground arith,
  ground arith,
  ground arith,
  ground arith,
)

count_round-IsSame : (b : Bbr) → IsSame b (count_round b)
unfolding count_round
count_round-IsSame b = (
  ground arith,
  ground arith,
  ground arith,
  ground arith,
  ground arith,
  ground arith,
  ground arith,
)

sample_interval-IsSame :
    (stamp delivered lost : ℕ) (app_limit : Bool) (b : Bbr)
    → IsSame b (sample_interval stamp delivered lost app_limit b)
unfolding sample_interval bbr_reset_lt_bw_sampling
sample_interval-IsSame stamp delivered lost app_limit b =
    let b' = count_round b in
    let c = count_round-IsSame b in
    let e = end_interval-IsSame stamp delivered lost b' in
    (
      ground (arith, c.0, e.0),
      ground (arith, c.1, e.1),
      ground (arith, c.2, e.2),
      ground (arith, c.3, e.3),
      ground (arith, c.4, e.4),
      ground (arith, c.5, e.5),
      ground (arith, c.6, e.6),
    )

use_lt_bw-quiet :
    (stamp delivered lost : ℕ) (b : Bbr)
    → b.round_start ≡ false
    → use_lt_bw stamp delivered lost b ≡ b
unfolding use_lt_bw
use_lt_bw-quiet stamp delivered lost b h =
    elim (Bool-cases (mode_code b.mode == mode_code bbr_probe_bw)) [
      | inl e ↦ simp (e, h)
      | inr e ↦ simp e
    ]

-- The block of a new interval.
abbrev pub sampled : ℕ → ℕ → ℕ → Bbr → Bbr
sampled stamp delivered lost b = record (bbr_reset_lt_bw_sampling_interval stamp delivered lost b) {
  lt_is_sampling = true;
}

-- `bbr_lt_bw_sampling` by its tests.
pub sampling-cases :
    (stamp delivered lost : ℕ) (app_limit : Bool) (b : Bbr)
    → let r = bbr_lt_bw_sampling stamp delivered lost app_limit b in
      (b.lt_use_bw ≡ true → r ≡ use_lt_bw stamp delivered lost b)
      × (b.lt_use_bw ≡ false
          → b.lt_is_sampling ≡ true
          → r ≡ sample_interval stamp delivered lost app_limit b)
      × (b.lt_use_bw ≡ false → b.lt_is_sampling ≡ false → (lost == 0) ≡ true → r ≡ b)
      × (b.lt_use_bw ≡ false
          → b.lt_is_sampling ≡ false
          → (lost == 0) ≡ false
          → r ≡ sample_interval stamp delivered lost app_limit (sampled stamp delivered lost b))
unfolding bbr_lt_bw_sampling
sampling-cases stamp delivered lost app_limit b =
    (λ u. simp u, λ u e. simp (u, e), λ u e f. simp (u, e, f), λ u e f. simp (u, e, f))

sampled-IsSame : (stamp delivered lost : ℕ) (b : Bbr) → IsSame b (sampled stamp delivered lost b)
unfolding bbr_reset_lt_bw_sampling_interval
sampled-IsSame stamp delivered lost b = (refl, refl, refl, refl, refl, refl, refl)

IsSame-trans : (b c d : Bbr) → IsSame b c → IsSame c d → IsSame b d
IsSame-trans b c d s t =
    (t.0 ∙ s.0, t.1 ∙ s.1, t.2 ∙ s.2, t.3 ∙ s.3, t.4 ∙ s.4, t.5 ∙ s.5, t.6 ∙ s.6)

pub bbr_lt_bw_sampling-IsSame :
    (stamp delivered lost : ℕ) (app_limit : Bool) (b : Bbr)
    → b.round_start ≡ false
    → IsSame b (bbr_lt_bw_sampling stamp delivered lost app_limit b)
bbr_lt_bw_sampling-IsSame stamp delivered lost app_limit b h =
    let r = sampling-cases stamp delivered lost app_limit b in
    let itself : IsSame b b = (refl, refl, refl, refl, refl, refl, refl) in
    let started = sampled stamp delivered lost b in
    elim (Bool-cases b.lt_use_bw) [
      | inl u ↦ subst (IsSame b) (sym (r.0 u ∙ use_lt_bw-quiet stamp delivered lost b h)) itself
      | inr u ↦ elim (Bool-cases b.lt_is_sampling) [
        | inl e ↦
            subst (IsSame b) (sym (r.1 u e))
              (sample_interval-IsSame stamp delivered lost app_limit b)
        | inr e ↦ elim (Bool-cases (lost == 0)) [
          | inl f ↦ subst (IsSame b) (sym (r.2 u e f)) itself
          | inr f ↦ subst (IsSame b) (sym (r.3 u e f)) (
              IsSame-trans b started (sample_interval stamp delivered lost app_limit started)
                (sampled-IsSame stamp delivered lost b)
                (sample_interval-IsSame stamp delivered lost app_limit started))
        ]
      ]
    ]
