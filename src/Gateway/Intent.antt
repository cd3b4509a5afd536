-- ===== src/Gateway/Intent.antt =====
-- gateway/server.py: POST /v1/intent, and gateway/proxy.py: the forwarding of an allowed intent. The
-- log line of a decision is left out.
pub mod Route
use asset_embedding_protocol.Prelude.{
  ℕ, String, Option, none, some, List, [], ◌∷◌, nat_eq, string_eq, if◌then◌else◌, zero, suc, ◌+◌,
  ◌-◌, ◌*◌, ◌/◌, ◌%◌, ◌^◌, ◌≤◌, ◌<◌, ◌≡◌, refl, sym, ap, ◌∙◌, subst, ◌≢◌, ◌↔◌, ◌⊎◌, inl, inr, Bool,
  true, false, not, ◌&&◌, ◌||◌, ◌++◌, map, arith, eq_iff, ltb, leb, ltb→lt, leb→le, tests, Eq, ◌==◌,
  Bool-cases, Option-cases, &&_true, length, length-append, is_nonempty, All, All-append, All-map,
  contains, subset, Among, contains-Among, Among-contains, contains-subset, subset-nonempty,
}
use asset_embedding_protocol.Number.{Float, Decimal}
use asset_embedding_protocol.Dict
use asset_embedding_protocol.Gateway.Site.{
  non_finite_number, downstream_error, http_error, other_error,
}
use asset_embedding_protocol.Oracle.Treasury.{no_observation, unsupported_tenor, observed, overflow}
use asset_embedding_protocol.Models.{is_truthy}
use asset_embedding_protocol.Gateway.Site.{
  Posted, Payload, Site, reply, Moment, json_body, Response, Gateway, text_body, crashed, rendered,
  overflow_error, forwarded, index_error, verdict, unreachable, downstream_error,
}
use asset_embedding_protocol.Models.{
  Claim, Value, Observation, CustosEnvelope, AssetScores, Reference, action_value,
}
use asset_embedding_protocol.Canonical.{signable_payload, Platform, Bytes}
use asset_embedding_protocol.Attestation.{sign_denial, VerdictRecord, sign_attestation}
use asset_embedding_protocol.Gateway.{key_of}
use asset_embedding_protocol.Oracle.Treasury.{Sought, observed, get_observation}
use asset_embedding_protocol.Errors.{
  CustosErrorCode, invalid_signature, tenor_unsupported, http_status_for, downstream_unreachable,
}
use asset_embedding_protocol.Claims.{get_claim}
use asset_embedding_protocol.Pipeline.{
  verify_intent, Outcome, Arguments, is_tier_0, raised, returned,
}
use asset_embedding_protocol.Text.{concat}
use asset_embedding_protocol.Boundaries.{numeric}

-- envelope_hash, `none` where NonFiniteNumberError is raised
unfoldable pub envelope_hash :
    {F Key : Type 0} ⦃f : Float F⦄
    → Platform F Key
    → (Bytes → String)
    → CustosEnvelope F
    → Option String
unfolding signable_payload
envelope_hash lib sha256_hex e = elim (signable_payload lib e) [
  | none ↦ none
  | some payload ↦ some (sha256_hex payload)
]

-- envelope.intent.parameters.get("downstream"), unless it is falsy
unfoldable pub downstream_of : {F : Type 0} ⦃f : Float F⦄ → Option (Value F) → Option (Value F)
unfolding is_truthy
downstream_of none = none
downstream_of (some v) = if is_truthy v then some v else none

-- _resolve: a claim and an observation, a claim of an unsupported tenor, or OverflowError
pub data Resolved (D : Type 0) : Type 0 where
  resolved : Option (Claim D) → Option Observation → Resolved D
  tenor_error : Claim D → Resolved D
  oracle_overflow : Resolved D

-- how the oracle's answer about a claim's tenor is taken
unfoldable pub resolved_as : {D : Type 0} → Claim D → Sought → Resolved D
resolved_as c (observed x) = resolved (some c) (some x)
resolved_as c no_observation = resolved (some c) none
resolved_as c unsupported_tenor = tenor_error c
resolved_as c overflow = oracle_overflow

-- What `forward` does: it returns, or raises ConnectionError or another exception.
pub data Forwarded (F : Type 0) : Type 0 where
  answered : ℕ → Payload F → Forwarded F
  connection_error uncaught : Forwarded F

abbrev pub forwarded_as : {F : Type 0} → Posted F → Forwarded F
forwarded_as (reply status (some v) raw) = answered status (json_body v)
forwarded_as (reply status none raw) = answered status (text_body raw)
forwarded_as http_error = connection_error
forwarded_as other_error = uncaught
