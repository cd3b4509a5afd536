-- ===== src/Errors.antt =====
-- custos_protocol/errors.py: the error taxonomy and its HTTP statuses.
use asset_embedding_protocol.Prelude.{ℕ, String, string_eq, nat_eq}

-- class CustosErrorCode
pub data CustosErrorCode : Type 0 where
  invalid_signature expired_envelope replay_detected schema_invalid : CustosErrorCode
  version_unsupported nonce_invalid clock_skew : CustosErrorCode
  action_not_allowed action_denied monetary_limit_per_txn : CustosErrorCode
  monetary_limit_per_day time_window_violation geo_restriction : CustosErrorCode
  asset_class_not_allowed : CustosErrorCode
  claim_stale yield_drift_exceeded backing_ratio_below_floor unknown_asset : CustosErrorCode
  tenor_unsupported claim_future_dated attestation_mismatch : CustosErrorCode
  agent_revoked agent_suspended issuer_revoked delegation_invalid : CustosErrorCode
  trust_score_low revocation_stale : CustosErrorCode
  oracle_unavailable oracle_data_stale downstream_unreachable : CustosErrorCode

-- the member's value
unfoldable pub code_value : CustosErrorCode → String
code_value invalid_signature = "CUSTOS-E100"
code_value expired_envelope = "CUSTOS-E101"
code_value replay_detected = "CUSTOS-E102"
code_value schema_invalid = "CUSTOS-E103"
code_value version_unsupported = "CUSTOS-E104"
code_value nonce_invalid = "CUSTOS-E105"
code_value clock_skew = "CUSTOS-E106"
code_value action_not_allowed = "CUSTOS-E200"
code_value action_denied = "CUSTOS-E201"
code_value monetary_limit_per_txn = "CUSTOS-E202"
code_value monetary_limit_per_day = "CUSTOS-E203"
code_value time_window_violation = "CUSTOS-E204"
code_value geo_restriction = "CUSTOS-E205"
code_value asset_class_not_allowed = "CUSTOS-E206"
code_value claim_stale = "CUSTOS-E300"
code_value yield_drift_exceeded = "CUSTOS-E301"
code_value backing_ratio_below_floor = "CUSTOS-E302"
code_value unknown_asset = "CUSTOS-E303"
code_value tenor_unsupported = "CUSTOS-E304"
code_value claim_future_dated = "CUSTOS-E305"
code_value attestation_mismatch = "CUSTOS-E306"
code_value agent_revoked = "CUSTOS-E400"
code_value agent_suspended = "CUSTOS-E401"
code_value issuer_revoked = "CUSTOS-E402"
code_value delegation_invalid = "CUSTOS-E403"
code_value trust_score_low = "CUSTOS-E404"
code_value revocation_stale = "CUSTOS-E405"
code_value oracle_unavailable = "CUSTOS-E500"
code_value oracle_data_stale = "CUSTOS-E501"
code_value downstream_unreachable = "CUSTOS-E502"

-- ErrorSpec
pub record ErrorSpec : Type 0 where
  pub http_status : ℕ
  pub description : String

-- ERROR_SPECS
unfoldable pub error_specs : CustosErrorCode → ErrorSpec
error_specs invalid_signature = record {
  http_status = 401;
  description = "Envelope signature failed verification.";
}
error_specs expired_envelope = record {
  http_status = 400;
  description = "Envelope expires_at is in the past.";
}
error_specs replay_detected = record {
  http_status = 409;
  description = "Envelope nonce has already been used.";
}
error_specs schema_invalid = record {
  http_status = 400;
  description = "Envelope failed schema validation.";
}
error_specs version_unsupported = record {
  http_status = 400;
  description = "Protocol version is not supported.";
}
error_specs nonce_invalid = record {
  http_status = 400;
  description = "Envelope entropy is not a well-formed nonce.";
}
error_specs clock_skew = record {
  http_status = 400;
  description = "Envelope issued_at is implausibly far in the future.";
}
error_specs action_not_allowed = record {
  http_status = 403;
  description = "Action is absent from the agent's allowed actions.";
}
error_specs action_denied = record {
  http_status = 403;
  description = "Action appears on the agent's denied actions.";
}
error_specs monetary_limit_per_txn = record {
  http_status = 403;
  description = "Amount exceeds the per-transaction monetary limit.";
}
error_specs monetary_limit_per_day = record {
  http_status = 403;
  description = "Amount exceeds the rolling per-day monetary limit.";
}
error_specs time_window_violation = record {
  http_status = 403;
  description = "Request falls outside the agent's permitted time window.";
}
error_specs geo_restriction = record {
  http_status = 403;
  description = "Request origin is outside the agent's permitted geography.";
}
error_specs asset_class_not_allowed = record {
  http_status = 403;
  description = "Asset class is absent from the agent's permitted classes.";
}
error_specs claim_stale = record {
  http_status = 403;
  description = "Claim was not attested within the staleness threshold.";
}
error_specs yield_drift_exceeded = record {
  http_status = 403;
  description = "Claimed yield diverges from the observed market yield beyond threshold.";
}
error_specs backing_ratio_below_floor = record {
  http_status = 403;
  description = "Claimed backing does not cover the implied liability.";
}
error_specs unknown_asset = record {
  http_status = 404;
  description = "Asset is not present in the claim registry.";
}
error_specs tenor_unsupported = record {
  http_status = 422;
  description = "Claim references a tenor with no yield-curve mapping.";
}
error_specs claim_future_dated = record {
  http_status = 403;
  description = "Claim was attested in the future.";
}
error_specs attestation_mismatch = record {
  http_status = 403;
  description = "Agent build or prompt attestation does not match the expected value.";
}
error_specs agent_revoked = record {
  http_status = 403;
  description = "Agent identity has been revoked.";
}
error_specs agent_suspended = record {
  http_status = 403;
  description = "Agent identity is temporarily suspended.";
}
error_specs issuer_revoked = record {
  http_status = 403;
  description = "The asset issuer has been revoked.";
}
error_specs delegation_invalid = record {
  http_status = 403;
  description = "Delegation chain is broken, expired, or widens its scope.";
}
error_specs trust_score_low = record {
  http_status = 403;
  description = "Agent trust score is below the required minimum.";
}
error_specs revocation_stale = record {
  http_status = 503;
  description = "Revocation data is too stale to rely on; Custos fails closed.";
}
error_specs oracle_unavailable = record {
  http_status = 503;
  description = "The market oracle could not be reached; Custos fails closed.";
}
error_specs oracle_data_stale = record {
  http_status = 503;
  description = "The market observation is older than tolerance.";
}
error_specs downstream_unreachable = record {
  http_status = 502;
  description = "The downstream service could not be reached.";
}

unfoldable pub http_status_for : CustosErrorCode → ℕ
http_status_for c = (error_specs c).http_status
