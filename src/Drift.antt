-- ===== src/Drift.antt =====
-- custos_protocol/drift.py: is a claim plausible against the market observation for its tenor?
-- The number that an f-string interpolates is left out of a failure's detail.
pub mod Plausible
use asset_embedding_protocol.Prelude.{
  ℕ, zero, suc, ◌+◌, ◌-◌, ◌*◌, ◌/◌, ◌%◌, ◌^◌, ◌≤◌, ◌<◌, String, ◌≡◌, refl, sym, ap, ◌∙◌, subst, ◌≢◌,
  ◌↔◌, ◌⊎◌, inl, inr, Bool, true, false, not, ◌&&◌, ◌||◌, Option, none, some, List, [], ◌∷◌, ◌++◌,
  map, arith, eq_iff, ltb, leb, if◌then◌else◌, ltb→lt, leb→le, tests, Eq, ◌==◌, nat_eq, string_eq,
  Bool-cases, Option-cases, &&_true, length, length-append, is_nonempty, All, All-append, All-map,
  contains, subset, Among, contains-Among, Among-contains, contains-subset, subset-nonempty,
}
use asset_embedding_protocol.Prelude.Int.{ℤ, pos, negsuc, sub_ℕ, ltb_ℤ, distance}
use asset_embedding_protocol.Number.{Float, Decimal, max_float}
use asset_embedding_protocol.Errors.{
  CustosErrorCode, unknown_asset, oracle_unavailable, oracle_data_stale, claim_future_dated,
  claim_stale, yield_drift_exceeded, backing_ratio_below_floor,
}
use asset_embedding_protocol.Models.{
  AssetScores, Claim, Observation, Reference, DriftBasis, relative, absolute, second,
}

-- class DriftConfig
pub record DriftConfig (F : Type 0) : Type 0 where
  pub staleness_threshold_hours : F
  pub drift_threshold : F
  pub backing_floor : F
  pub max_observation_age_days : ℕ
  pub zero_yield_abs_tolerance_bps : ℕ
  pub clock_skew_seconds : ℕ

-- DriftConfig()
abbrev pub default_drift_config : {F : Type 0} ⦃f : Float F⦄ → DriftConfig F
default_drift_config ⦃f = f⦄ = record {
  staleness_threshold_hours = f.literal 240 1;
  drift_threshold = f.literal 2 2;
  backing_floor = f.literal 10 1;
  max_observation_age_days = 4;
  zero_yield_abs_tolerance_bps = 10;
  clock_skew_seconds = 5;
}

pub data AssetTruthDetail : Type 0 where
  not_in_registry oracle_not_reached observation_too_old attested_in_future : AssetTruthDetail
  attested_too_long_ago negative_yield diverging_yield low_backing : AssetTruthDetail

-- class AssetTruthFailure
pub record AssetTruthFailure (F : Type 0) : Type 0 where
  pub code : CustosErrorCode
  pub detail : AssetTruthDetail
  pub scores : Option (AssetScores F)
  pub reference : Option Reference

-- AssetScores | AssetTruthFailure
pub data AssetTruth (F : Type 0) : Type 0 where
  scored : AssetScores F → AssetTruth F
  failure : AssetTruthFailure F → AssetTruth F

-- _reference
unfoldable pub reference : {D : Type 0} → Claim D → Observation → Reference
reference c o = record {
  source = o.source;
  tenor = o.tenor;
  claimed_yield_bps = c.claimed_yield_bps;
  observed_yield_bps = o.observed_yield_bps;
  record_date = o.record_date;
}

-- (now.date() - observation.record_date).days
unfoldable pub age_days : Observation → ℕ → ℤ
age_days o now = sub_ℕ (now / (86400 * second)) o.record_date

-- observed == 0
abbrev pub is_zero : ℤ → Bool
is_zero (pos zero) = true
is_zero n = false

-- drift_value, threshold and basis
pub record Drift (F : Type 0) : Type 0 where
  pub value : F
  pub threshold : F
  pub basis : DriftBasis

module _ {F : Type 0} ⦃f : Float F⦄ where
  abbrev refuse :
      CustosErrorCode → AssetTruthDetail → Option (AssetScores F) → Option Reference → AssetTruth F
  refuse code detail scores ref =
      failure (record { code = code; detail = detail; scores = scores; reference = ref })

  -- hours since the attestation, 0.0 for one in the future
  unfoldable pub staleness : {D : Type 0} → Claim D → ℕ → F
  staleness c now =
      max_float f.nought
        (f.div (f.total_seconds (sub_ℕ now c.last_attested_at)) (f.of_int (pos 3600)))

  -- 7. relative to the observation, or absolute where that is 0
  unfoldable pub drift : {D : Type 0} → Claim D → ℤ → DriftConfig F → Drift F
  drift c observed config =
      let apart = f.of_int (pos (distance observed (pos c.claimed_yield_bps))) in
      if is_zero observed
      then record {
        value = apart;
        threshold = f.of_int (pos config.zero_yield_abs_tolerance_bps);
        basis = absolute;
      }
      else record {
        value = f.div apart (f.of_int observed);
        threshold = config.drift_threshold;
        basis = relative;
      }

  unfoldable pub backing_ratio : {D : Type 0} ⦃d : Decimal D F⦄ → Claim D → F
  backing_ratio ⦃d⦄ c =
      d.to_float
        (d.over c.claimed_backing_usd (d.times c.tokens_outstanding c.claimed_nav_per_token))

  -- the scores after step 5
  unfoldable pub staleness_scores : F → DriftConfig F → AssetScores F
  staleness_scores hours config = record {
    staleness_hours = some (f.round hours 2);
    staleness_threshold_hours = some config.staleness_threshold_hours;
    yield_drift = none;
    yield_drift_threshold = none;
    yield_drift_basis = none;
    backing_ratio = none;
    backing_ratio_floor = none;
  }

  -- after step 7
  unfoldable pub drift_scores : AssetScores F → Drift F → AssetScores F
  drift_scores s d = record s {
    yield_drift = some (f.round d.value 6);
    yield_drift_threshold = some d.threshold;
    yield_drift_basis = some d.basis;
  }

  -- after step 8
  unfoldable pub backing_scores : AssetScores F → F → DriftConfig F → AssetScores F
  backing_scores s ratio config = record s {
    backing_ratio = some (f.round ratio 6);
    backing_ratio_floor = some config.backing_floor;
  }

  -- 8. Backing ratio.
  unfoldable pub check_backing :
      {D : Type 0} ⦃d : Decimal D F⦄
      → Claim D
      → Reference
      → DriftConfig F
      → AssetScores F
      → AssetTruth F
  check_backing c ref config s =
      let ratio = backing_ratio c in
      let s' = backing_scores s ratio config in
      if f.lt ratio config.backing_floor
      then refuse backing_ratio_below_floor low_backing (some s') (some ref)
      else scored s'

  -- 6, 7. Yield drift.
  unfoldable pub check_drift :
      {D : Type 0} ⦃d : Decimal D F⦄
      → Claim D
      → Observation
      → Reference
      → DriftConfig F
      → AssetScores F
      → AssetTruth F
  check_drift c o ref config s =
      let m = drift c o.observed_yield_bps config in
      let s' = drift_scores s m in
      if ltb_ℤ o.observed_yield_bps (pos 0)
      then refuse oracle_data_stale negative_yield (some s) (some ref)
      else if f.lt m.threshold m.value
      then refuse yield_drift_exceeded diverging_yield (some s') (some ref)
      else check_backing c ref config s'

  -- 3 to 5. The age of the observation and of the claim.
  unfoldable pub check_times :
      {D : Type 0} ⦃d : Decimal D F⦄ → Claim D → Observation → DriftConfig F → ℕ → AssetTruth F
  check_times c o config now =
      let ref = reference c o in
      let hours = staleness c now in
      let s = staleness_scores hours config in
      if ltb_ℤ (pos config.max_observation_age_days) (age_days o now)
      then refuse oracle_data_stale observation_too_old none (some ref)
      else if ltb (now + config.clock_skew_seconds * second) c.last_attested_at
      then refuse claim_future_dated attested_in_future none (some ref)
      else if f.lt config.staleness_threshold_hours hours
      then refuse claim_stale attested_too_long_ago (some s) (some ref)
      else check_drift c o ref config s

  unfoldable pub check_asset_truth :
      {D : Type 0} ⦃d : Decimal D F⦄
      → Option (Claim D)
      → Option Observation
      → DriftConfig F
      → ℕ
      → AssetTruth F
  check_asset_truth none o config now = refuse unknown_asset not_in_registry none none
  check_asset_truth (some c) none config now =
      refuse oracle_unavailable oracle_not_reached none none
  check_asset_truth (some c) (some o) config now = check_times c o config now
