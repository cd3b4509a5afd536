-- ===== src/Models/Asset.antt =====
-- models.py: the claim about an asset, and the market observation that it is held against.
use asset_embedding_protocol.Prelude.{ℕ, String, Bool, Option, nat_eq, string_eq}
use asset_embedding_protocol.Prelude.Int.{ℤ}

pub record Claim (D : Type 0) : Type 0 where
  pub asset_id : String
  pub issuer : String
  pub underlying_tenor : String
  pub asset_class : String
  pub claimed_nav_per_token : D
  pub claimed_backing_usd : D
  pub tokens_outstanding : D
  pub claimed_yield_bps : ℕ
  pub last_attested_at : ℕ
  pub chain : String
  pub contract_address : String

pub record Observation : Type 0 where
  pub source : String
  pub dataset : String
  pub tenor : String
  pub observed_yield_bps : ℤ
  pub record_date : ℕ
  pub fetched_at : ℕ
  pub cache_hit : Bool

pub data DriftBasis : Type 0 where
  relative absolute : DriftBasis

pub record AssetScores (F : Type 0) : Type 0 where
  pub staleness_hours : Option F
  pub staleness_threshold_hours : Option F
  pub yield_drift : Option F
  pub yield_drift_threshold : Option F
  pub yield_drift_basis : Option DriftBasis
  pub backing_ratio : Option F
  pub backing_ratio_floor : Option F

-- the dict that `_reference` builds
pub record Reference : Type 0 where
  pub source : String
  pub tenor : String
  pub claimed_yield_bps : ℕ
  pub observed_yield_bps : ℤ
  pub record_date : ℕ
