-- ===== src/Drift/Plausible.antt =====
-- What a claim that `check_asset_truth` scores satisfies, and what makes it fail.
use asset_embedding_protocol.Prelude.{
  ℕ, ◌+◌, ◌*◌, ◌/◌, ◌≤◌, ◌≡◌, ◌≢◌, false, arith, nat_eq, string_eq, refl, ◌↔◌, Option, none, some,
}
use asset_embedding_protocol.Prelude.Int.{pos, distance}
use asset_embedding_protocol.Number.{Float, Decimal}
use asset_embedding_protocol.Models.{Claim, Observation, AssetScores, second}
use asset_embedding_protocol.Drift.{
  DriftConfig, scored, staleness, drift, backing_ratio, age_days, check_backing, check_drift,
  check_times, staleness_scores, drift_scores, backing_scores, AssetTruth, check_asset_truth,
  failure,
}
use asset_embedding_protocol.Errors.{unknown_asset, CustosErrorCode, oracle_unavailable}

module _ {F D : Type 0} ⦃f : Float F⦄ ⦃d : Decimal D F⦄ where
  pub record IsPlausible (c : Claim D) (o : Observation) (config : DriftConfig F) (now : ℕ)
      : Type 0 where
    -- the observation is of a day at most so many before today
    pub recent : now / (86400 * second) ≤ o.record_date + config.max_observation_age_days
    pub not_future : c.last_attested_at ≤ now + config.clock_skew_seconds * second
    pub fresh : f.lt config.staleness_threshold_hours (staleness c now) ≡ false
    pub observed : (n : ℕ) × (o.observed_yield_bps ≡ pos n)
    -- no more than the tolerance from an observation of 0
    pub absolute :
        o.observed_yield_bps ≡ pos 0
        → f.lt
            (f.of_int (pos config.zero_yield_abs_tolerance_bps))
            (f.of_int (pos c.claimed_yield_bps))
          ≡ false
    -- no more than the threshold from any other, relative to it
    pub relative :
        o.observed_yield_bps ≢ pos 0
        → f.lt config.drift_threshold (
            f.div
              (f.of_int (pos (distance o.observed_yield_bps (pos c.claimed_yield_bps))))
              (f.of_int o.observed_yield_bps))
          ≡ false
    pub backed : f.lt (backing_ratio c) config.backing_floor ≡ false

  -- the scores of a claim that passes
  unfoldable pub full_scores : Claim D → Observation → DriftConfig F → ℕ → AssetScores F
  full_scores c o config now =
      backing_scores
        (drift_scores (staleness_scores (staleness c now) config)
          (drift c o.observed_yield_bps config))
        (backing_ratio c) config

  check_times_of :
      (c : Claim D) (o : Observation) (config : DriftConfig F) (now : ℕ) {s : AssetScores F}
      → check_times c o config now ≡ scored s
      → IsPlausible c o config now × (s ≡ full_scores c o config now)
  unfolding check_times check_drift check_backing drift age_days full_scores
  check_times_of c o config now h = ground arith

  of_check_times :
      (c : Claim D) (o : Observation) (config : DriftConfig F) (now : ℕ)
      → IsPlausible c o config now
      → check_times c o config now ≡ scored (full_scores c o config now)
  unfolding check_times check_drift check_backing drift age_days full_scores
  of_check_times c o config now p = ground (arith, p.observed.1)

  -- `check_asset_truth` returns scores exactly if a claim was resolved, there is an observation, and the
  -- claim is plausible against it; the scores are then those of the three measurements.
  pub check_asset_truth-IsPlausible_iff :
      (claim : Option (Claim D)) (observation : Option Observation) (config : DriftConfig F)
      (now : ℕ) (s : AssetScores F)
      → (check_asset_truth claim observation config now ≡ scored s) ↔ (
          (c : Claim D) × (o : Observation) × (claim ≡ some c)
          × (observation ≡ some o)
          × IsPlausible c o config now
          × (s ≡ full_scores c o config now))
  unfolding check_asset_truth
  check_asset_truth-IsPlausible_iff none o config now s =
      (λ h. absurd (ground arith), λ (c, o', ec, eo, p, e). absurd (ground arith))
  check_asset_truth-IsPlausible_iff (some c) none config now s =
      (λ h. absurd (ground arith), λ (c', o', ec, eo, p, e). absurd (ground arith))
  check_asset_truth-IsPlausible_iff (some c) (some o) config now s = (
    λ h. let (p, e) = check_times_of c o config now h in (c, o, refl, refl, p, e),
    λ (c', o', ec, eo, p, e). cc (of_check_times c' o' config now p),
  )

abbrev pub code_of : {F : Type 0} → AssetTruth F → Option CustosErrorCode
code_of (scored s) = none
code_of (failure x) = some x.code

-- `check_asset_truth` fails closed: with no claim it fails as unknown, and with a claim it fails as
-- unreachable exactly where there is no observation, whatever the thresholds.
pub fails_closed :
    {F D : Type 0} ⦃f : Float F⦄ ⦃d : Decimal D F⦄ (claim : Option (Claim D))
    (observation : Option Observation) (config : DriftConfig F) (now : ℕ)
    → ((code_of (check_asset_truth claim observation config now) ≡ some unknown_asset)
        ↔ (claim ≡ none))
      × ((code_of (check_asset_truth claim observation config now) ≡ some oracle_unavailable)
          ↔ ((claim ≢ none) × (observation ≡ none)))
unfolding check_asset_truth check_times check_drift check_backing
fails_closed none o config now = (ground arith, ground arith)
fails_closed (some c) none config now = (ground arith, ground arith)
fails_closed (some c) (some o) config now = (ground arith, ground arith)
