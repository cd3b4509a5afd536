-- ===== src/Pipeline/Context.antt =====
-- verification.py: the arguments of `verify_intent`, its result, and the state that a call works on.
use asset_embedding_protocol.Prelude.{
  ℕ, String, Bool, Option, none, List, [], ◌∷◌, if◌then◌else◌, ◌==◌, nat_eq, string_eq,
}
use asset_embedding_protocol.Dict.{Dict}
use asset_embedding_protocol.Errors.{CustosErrorCode}
use asset_embedding_protocol.Models.{
  CustosEnvelope, VerificationTier, CheckOutcome, passed, not_run, Claim, Observation, AssetScores,
  Reference, RevocationCheck,
}
use asset_embedding_protocol.Drift.{DriftConfig, AssetTruthDetail}
use asset_embedding_protocol.Delegation.{DelegationConfig, DelegationDetail}
use asset_embedding_protocol.Trust.{TrustEngine}
use asset_embedding_protocol.Revocation.{RevocationStore}
use asset_embedding_protocol.Canonical.{Bytes}

-- _STEPS
pub data Step : Type 0 where
  version schema expiry clock_skew signature nonce_format replay : Step
  boundaries revocation asset_truth attestation delegation trust : Step

-- the place of a step in the order of the pipeline
unfoldable pub place : Step → ℕ
place version = 0
place schema = 1
place expiry = 2
place clock_skew = 3
place signature = 4
place nonce_format = 5
place replay = 6
place boundaries = 7
place revocation = 8
place asset_truth = 9
place attestation = 10
place delegation = 11
place trust = 12

-- the dict `checks`, which has an entry for each step
abbrev pub Checks : Type 0
Checks = Step → CheckOutcome

abbrev pub all_not_run : Checks
all_not_run s = not_run

-- checks[step] = outcome
unfoldable pub mark : Step → CheckOutcome → Checks → Checks
unfolding place
mark s o c x = if place s == place x then o else c x

-- The texts of `detail`; what an f-string interpolates is left out.
pub data Detail : Type 0 where
  version_not_supported no_agent_or_action expires_in_past issued_in_future : Detail
  no_proof signature_failed nonce_malformed nonce_used boundaries_violated : Detail
  revocation_data_stale agent_not_permitted issuer_not_permitted : Detail
  framework_not_registered build_hash_differs prompt_hash_differs trust_too_low : Detail
  asset : AssetTruthDetail → Detail
  chain : DelegationDetail → Detail
  verification_passed : VerificationTier → Detail

-- The arguments of `verify_intent` besides the store and the trust engine, defaults filled in.
pub record Arguments (F D Key : Type 0) : Type 0 where
  pub envelope : CustosEnvelope F
  pub public_key : Key
  pub claim : Option (Claim D)
  pub observation : Option Observation
  pub drift_config : DriftConfig F
  pub delegation_config : DelegationConfig
  pub min_trust_score : F
  pub registered_frameworks : Option (List String)
  pub known_build_hashes : Option (Dict String)
  pub known_prompt_hashes : Option (Dict String)
  pub hmac_key : Option Bytes
  pub request_geo : Option String
  pub clock_skew_seconds : ℕ
  pub max_revocation_staleness_ms : ℕ
  pub now : ℕ

-- What one call reads from its surroundings: the monotonic clock at the cutoff and where the nonce is
-- stored, the wall clock at each query of the store, and the token that `uuid4` draws.
pub record Readings : Type 0 where
  pub nonce_cutoff_at : ℕ
  pub nonce_stored_at : ℕ
  pub freshness_at : ℕ
  pub agent_revoked_at : ℕ
  pub agent_suspended_at : ℕ
  pub issuer_revoked_at : ℕ
  pub failed_at : ℕ
  pub token : String

-- the objects that calls share
pub record State (F : Type 0) : Type 0 where
  pub store : RevocationStore
  pub trust : TrustEngine F

-- a call's local state beside them
pub record Session (F : Type 0) : Type 0 where
  pub state : State F
  pub ledger_token : Option String
  pub checks : Checks

-- the arguments of `fail`
pub record Failure (F : Type 0) : Type 0 where
  pub step : Step
  pub codes : List CustosErrorCode
  pub detail : Detail
  pub scores : Option (AssetScores F)
  pub reference : Option Reference

-- class VerificationResult
pub record VerificationResult (F : Type 0) : Type 0 where
  pub passed : Bool
  pub checks : Checks
  pub revocation : RevocationCheck F
  pub trust_score : F
  pub tier_used : VerificationTier
  pub scores : Option (AssetScores F)
  pub reference : Option Reference
  pub errors : List CustosErrorCode
  pub detail : Detail

-- The exceptions that escape: NonFiniteNumberError and OverflowError.
pub data Escape : Type 0 where
  non_finite_payload amount_too_large : Escape

-- A way to leave early: by a failure, or by an exception.
pub data Exit (F : Type 0) : Type 0 where
  stop : Failure F → Exit F
  escape : Escape → Exit F

-- A stage goes on with a value, or leaves early; the session comes back either way.
pub data Progress (F A : Type 0) : Type 0 where
  go : A → Progress F A
  leave : Exit F → Progress F A

-- `return fail(…)`
abbrev pub halt : {F A : Type 0} → Failure F → Progress F A
halt x = leave (stop x)

abbrev pub Stage : Type 0 → Type 0 → Type 0
Stage F A = Session F → Progress F A × Session F

module _ {F : Type 0} where
  module _ {A B : Type 0} where
    abbrev proceed : Progress F A → (A → Stage F B) → Stage F B
    proceed (go a) k s = k a s
    proceed (leave x) k s = (leave x, s)

    infixl 10 ◌>>=◌ ◌>>◌
    unfoldable pub ◌>>=◌ : Stage F A → (A → Stage F B) → Stage F B
    ◌>>=◌ m k s = let (r, s') = m s in proceed r k s'

    abbrev pub ◌>>◌ : Stage F A → Stage F B → Stage F B
    m >> k = m >>= λ _. k

  unfoldable pub pure : {A : Type 0} → A → Stage F A
  pure a s = (go a, s)

  -- checks[step] = CheckOutcome.PASSED
  unfoldable pub pass : Step → Stage F (Unit {0})
  pass step s = (go tt, record s { checks = mark step passed s.checks })

  -- a failure with no scores
  unfoldable pub plain : Step → List CustosErrorCode → Detail → Failure F
  plain step codes detail = record {
    step = step;
    codes = codes;
    detail = detail;
    scores = none;
    reference = none;
  }

  -- `if not ok: return fail(…)`, else the step has passed
  unfoldable pub require : Bool → Step → CustosErrorCode → Detail → Stage F (Unit {0})
  unfolding pass plain
  require ok step code detail s =
      if ok then pass step s else (halt (plain step (code ∷ []) detail), s)
