-- ===== src/Tests/Calls.antt =====
-- Examples of calls of `verify_intent`.
use asset_embedding_protocol.Prelude.{
  ◌≡◌, refl, true, contains, subset, nat_eq, string_eq, ℕ, sym, ap, subst, false, Option, none,
  some, [], ◌∷◌, arith, ◌↔◌,
}
use asset_embedding_protocol.Number.Fixed.{fixed, fixed_decimal}
use asset_embedding_protocol.Tests.Fixtures.{envelope, platform, arguments, readings, state}
use asset_embedding_protocol.Dict.{get, put, remove}
use asset_embedding_protocol.Models.{action_value, Proof}
use asset_embedding_protocol.Text.{strip, upper, split_commas, codes_beq}
use asset_embedding_protocol.Boundaries.{
  check_boundaries, violations, action_violations, transaction_violations, numeric, day_violations,
  window_violations, geo_violations, truthy, permitted, normalized, class_violations,
}
use asset_embedding_protocol.Delegation.{
  check_delegation, delegation_detail, chain_detail, last_link, discontinuity, untimely,
  has_expired, widening, envelope_widening, containment_violation, list_contained,
  numeric_limit_contained, geo_contained, geo_set, window_contained,
}
use asset_embedding_protocol.Drift.{
  reference, age_days, staleness, drift, backing_ratio, staleness_scores, drift_scores,
  backing_scores, check_backing, check_drift, check_times, check_asset_truth,
}
use asset_embedding_protocol.Number.{max_float}
use asset_embedding_protocol.Trust.{
  reserve_amount, new_history, get_or_create, amend, record_violation, record_attestation,
  record_delegation_depth, total, amounts, fresh, enter, prune, store_entries, entries_of,
}
use asset_embedding_protocol.Trust.Score.{meets_threshold}
use asset_embedding_protocol.Revocation.{
  check_nonce, drop_stale, drop_excess, is_revoked, is_suspended, live_record, live_of, lapsed,
  freshness,
}
use asset_embedding_protocol.Canonical.{
  excluding, canonical_bytes, signable_payload, verify_signature, hmac_verify, normalize_numbers,
  normalize_items, normalize_fields,
}
use asset_embedding_protocol.Pipeline.{
  VerificationResult, Step, version_not_supported, all_not_run, verify_intent, tier_order,
  effective_tier, signature_ok, check_signature, admission, ◌>>=◌, pure, pass, plain, require,
  nonce_matches, nonce_stage, replay_stage, reserve_stage, judge_stage, amount_stage,
  boundaries_stage, agent_stage, issuer_stage, fresh_stage, revocation_stage, settle, asset_stage,
  framework_unknown, build_differs, prompt_differs, attestation_stage, delegation_stage,
  trust_stage, fail, fail_authenticated, succeed, tier_2_stages, tier_1_stages, later_stages,
  stages, authenticated, conclude, finish, resume, Arguments,
}
use asset_embedding_protocol.Verification.Coded.{passed-errors_iff}
use asset_embedding_protocol.Errors.{version_unsupported}
use asset_embedding_protocol.Verification.Unauthenticated.{
  result_of, has_passed, IsAuthentic, state_of, unauthenticated_untouched,
}
use asset_embedding_protocol.Verification.Replay.{verify_all, Call, replay_never_passes}
use asset_embedding_protocol.Verification.Sound.{IsCleared, pass-IsCleared}

passes : has_passed (verify_intent platform arguments readings state) ≡ true
unfolding verify_intent tier_order effective_tier signature_ok check_signature admission ◌>>=◌ pure
    pass plain require nonce_matches nonce_stage replay_stage reserve_stage judge_stage amount_stage
    boundaries_stage agent_stage issuer_stage fresh_stage revocation_stage settle asset_stage
    framework_unknown build_differs prompt_differs attestation_stage delegation_stage trust_stage
    fail fail_authenticated succeed tier_2_stages tier_1_stages later_stages stages authenticated
    conclude finish resume check_nonce drop_stale drop_excess is_revoked is_suspended live_record
    live_of lapsed freshness excluding canonical_bytes signable_payload verify_signature hmac_verify
    normalize_numbers normalize_items normalize_fields reserve_amount record_violation
    record_attestation record_delegation_depth amend get_or_create new_history total amounts fresh
    enter prune store_entries entries_of meets_threshold reference age_days staleness drift
    backing_ratio staleness_scores drift_scores backing_scores check_backing check_drift check_times
    check_asset_truth max_float check_delegation delegation_detail chain_detail last_link
    discontinuity untimely has_expired widening envelope_widening containment_violation
    list_contained subset contains numeric_limit_contained geo_contained geo_set window_contained
    check_boundaries violations action_violations action_value transaction_violations numeric get
    put remove day_violations window_violations geo_violations truthy permitted normalized strip
    upper split_commas codes_beq class_violations
passes = refl

pass-IsCleared_example : IsCleared platform arguments readings state
pass-IsCleared_example = pass-IsCleared platform arguments readings state passes

abbrev forged_proof : Proof
forged_proof = record {
  kind = "Ed25519Signature2020";
  created = 0;
  verification_method = "key";
  proof_purpose = "assertionMethod";
  proof_value = "forged";
}

-- the envelope with another signature
abbrev forged : Arguments ℕ ℕ ℕ
forged = record arguments { envelope = record envelope { proof = some forged_proof } }

forged_unauthentic : ¬ IsAuthentic platform forged
unfolding signature_ok verify_signature codes_beq
forged_unauthentic (proof, payload, e, p, v) =
    let same : forged_proof ≡ proof =
      ap (λ (o : Option Proof). elim o [ none ↦ forged_proof | some x ↦ x ]) e in
    let verified : signature_ok platform forged payload forged_proof ≡ true =
      subst (λ x. signature_ok platform forged payload x ≡ true) (sym same) v in
    absurd (ground (arith, verified))

unauthenticated_untouched_example :
    (state_of (verify_intent platform forged readings state) ≡ state)
    × (has_passed (verify_intent platform forged readings state) ≡ false)
unauthenticated_untouched_example =
    unauthenticated_untouched platform forged readings state forged_unauthentic

abbrev call : Call ℕ ℕ ℕ
call = record { arguments = arguments; readings = readings }

-- a call with another nonce
abbrev other_call : Call ℕ ℕ ℕ
other_call = record {
  arguments = record arguments {
    envelope = record envelope { entropy = "nonce:ffffffffffffffffffffffffffffffff" };
  };
  readings = record readings { nonce_cutoff_at = 200; nonce_stored_at = 201; token = "token-2" };
}

replay_never_passes_example :
    has_passed (
      verify_intent platform arguments readings (
        verify_all platform
          (other_call ∷ [])
          (state_of (verify_intent platform arguments readings state))))
    ≡ false
replay_never_passes_example =
    replay_never_passes platform call call (other_call ∷ []) state passes refl (omega arith, tt)
      (omega arith) (omega arith)

-- the envelope in a version that is not supported
abbrev outdated : Arguments ℕ ℕ ℕ
outdated = record arguments { envelope = record envelope { protocol_version = "2.0.0" } }

abbrev outdated_result : VerificationResult ℕ
outdated_result =
    fail platform outdated readings
      (plain Step.version (version_unsupported ∷ []) version_not_supported) all_not_run state

outdated_fails : result_of (verify_intent platform outdated readings state) ≡ some outdated_result
unfolding verify_intent resume admission contains plain
outdated_fails = refl

passed-errors_iff_example : (outdated_result.passed ≡ true) ↔ (outdated_result.errors ≡ [])
passed-errors_iff_example =
    passed-errors_iff platform outdated readings state outdated_result outdated_fails
