-- ===== src/Tests/Guards.antt =====
-- Examples of a protected callable and of an observed one.
use asset_embedding_protocol.Prelude.{
  ℕ, suc, ◌+◌, ◌≡◌, ◌≢◌, refl, String, Option, none, some, [], ◌∷◌, true, nat_eq, string_eq,
  contains, subset, if◌then◌else◌, ltb,
}
use asset_embedding_protocol.Models.{action_value, amount_is_non_negative, bounded_span}
use asset_embedding_protocol.Text.{strip, upper, split_commas, codes_beq}
use asset_embedding_protocol.Boundaries.{
  check_boundaries, violations, action_violations, transaction_violations, numeric, day_violations,
  window_violations, geo_violations, truthy, permitted, normalized, class_violations,
}
use asset_embedding_protocol.Delegation.{
  check_delegation, delegation_detail, chain_detail, last_link, discontinuity, untimely,
  has_expired, widening, envelope_widening, containment_violation, list_contained,
  numeric_limit_contained, geo_contained, geo_set, window_contained,
}
use asset_embedding_protocol.Drift.{
  reference, age_days, staleness, drift, backing_ratio, staleness_scores, drift_scores,
  backing_scores, check_backing, check_drift, check_times, check_asset_truth,
}
use asset_embedding_protocol.Number.{max_float}
use asset_embedding_protocol.Trust.{
  reserve_amount, new_history, get_or_create, amend, record_violation, record_attestation,
  record_delegation_depth, total, amounts, fresh, enter, prune, store_entries, entries_of,
}
use asset_embedding_protocol.Trust.Score.{meets_threshold}
use asset_embedding_protocol.Revocation.{
  check_nonce, drop_stale, drop_excess, is_revoked, is_suspended, live_record, live_of, lapsed,
  freshness,
}
use asset_embedding_protocol.Canonical.{
  excluding, canonical_bytes, signable_payload, verify_signature, hmac_verify, normalize_numbers,
  normalize_items, normalize_fields,
}
use asset_embedding_protocol.Pipeline.{
  verify_intent, tier_order, effective_tier, signature_ok, check_signature, admission, ◌>>=◌, pure,
  pass, plain, require, nonce_matches, nonce_stage, replay_stage, reserve_stage, judge_stage,
  amount_stage, boundaries_stage, agent_stage, issuer_stage, fresh_stage, revocation_stage, settle,
  asset_stage, framework_unknown, build_differs, prompt_differs, attestation_stage,
  delegation_stage, trust_stage, fail, fail_authenticated, succeed, tier_2_stages, tier_1_stages,
  later_stages, stages, authenticated, conclude, finish, resume,
}
use asset_embedding_protocol.Number.Fixed.{fixed, fixed_decimal}
use asset_embedding_protocol.Dict.{get, put, remove}
use asset_embedding_protocol.Models.{trade}
use asset_embedding_protocol.Observe.{ObservationStore, stats_of}
use asset_embedding_protocol.Observe.Wrapper.{
  Binding, Observer, Observed, Ended, returned, raised, watch_all, call_all, watch_all-call_all,
  AllRecordable,
}
use asset_embedding_protocol.Shield.{
  Protection, Surroundings, Instant, CallArguments, ran, valid_on_violation, build_parameters,
  call_target,
}
use asset_embedding_protocol.Shield.Verify.{
  protected_call, proceed_with, verify_call, prepare, prepare_for, resolve_target, resolve_rest,
  resolve_observation, verify_prepared, verify_resolved, shield_arguments, react,
}
use asset_embedding_protocol.Tests.Fixtures.{claim, observation, noon, readings}
use asset_embedding_protocol.Tests.Identities.{signer, signing, passport, parameters}
use asset_embedding_protocol.Envelope.{
  value_moving, create_envelope, draft, constructible, select_tier, escalates, whole_seconds,
  sign_envelope, proof_over, sign_data,
}
use asset_embedding_protocol.Shield.Gate.{IsGuarded, protected_call-IsGuarded}
use asset_embedding_protocol.Shield.Unresolved.{unresolved_never_runs}
use asset_embedding_protocol.Passport.{identity_of, boundaries_of}

-- a protection with a claim and an observation for every target; the caller's state is a number
abbrev protection : Protection ℕ ℕ ℕ ℕ ℕ
protection = record {
  platform = signer;
  signing = signing;
  action = trade;
  target = "token";
  tier = none;
  on_violation = "raise";
  passport = record passport {
    boundaries = record (passport.boundaries) { geo_restriction = none };
  };
  claim_resolver = some (λ target n. (some (some claim), n));
  observation_resolver = some (λ c n. (some (some observation), n));
}

abbrev surroundings : Surroundings ℕ ℕ
surroundings = record { revocation_store = none; trust_engine = none; world = 0 }

abbrev instant : Instant
instant = record {
  created_at = noon;
  hex = "0123456789abcdef0123456789abcdef";
  signed_at = noon;
  verified_at = noon;
  store_made_at = noon;
  readings = readings;
}

abbrev call_arguments : CallArguments ℕ
call_arguments = record { bound = some parameters; kwargs = [] }

abbrev callable : ℕ → Option ℕ × ℕ
callable n = (some 5, suc n)

runs : (protected_call protection callable instant call_arguments surroundings).0 ≡ ran (some 5)
unfolding identity_of boundaries_of protected_call proceed_with verify_call prepare prepare_for
    build_parameters call_target resolve_target resolve_rest resolve_observation verify_prepared
    verify_resolved shield_arguments react create_envelope draft constructible select_tier escalates
    value_moving whole_seconds sign_envelope proof_over sign_data amount_is_non_negative
    bounded_span verify_intent tier_order effective_tier signature_ok check_signature admission
    ◌>>=◌ pure pass plain require nonce_matches nonce_stage replay_stage reserve_stage judge_stage
    amount_stage boundaries_stage agent_stage issuer_stage fresh_stage revocation_stage settle
    asset_stage framework_unknown build_differs prompt_differs attestation_stage delegation_stage
    trust_stage fail fail_authenticated succeed tier_2_stages tier_1_stages later_stages stages
    authenticated conclude finish resume check_nonce drop_stale drop_excess is_revoked is_suspended
    live_record live_of lapsed freshness excluding canonical_bytes signable_payload verify_signature
    hmac_verify normalize_numbers normalize_items normalize_fields reserve_amount record_violation
    record_attestation record_delegation_depth amend get_or_create new_history total amounts fresh
    enter prune store_entries entries_of meets_threshold reference age_days staleness drift
    backing_ratio staleness_scores drift_scores backing_scores check_backing check_drift check_times
    check_asset_truth max_float check_delegation delegation_detail chain_detail last_link
    discontinuity untimely has_expired widening envelope_widening containment_violation
    list_contained subset contains numeric_limit_contained geo_contained geo_set window_contained
    check_boundaries violations action_violations action_value transaction_violations numeric get
    put remove day_violations window_violations geo_violations truthy permitted normalized strip
    upper split_commas codes_beq class_violations
runs = refl

protected_call-IsGuarded_example :
    (contains protection.on_violation valid_on_violation ≡ true)
    × IsGuarded protection instant call_arguments surroundings
protected_call-IsGuarded_example =
    protected_call-IsGuarded protection callable instant call_arguments surroundings (some 5) runs

-- the protection without its resolvers
abbrev unresolved : Protection ℕ ℕ ℕ ℕ ℕ
unresolved = record protection { claim_resolver = none; observation_resolver = none }

moving : value_moving unresolved.action ≡ true
unfolding value_moving
moving = refl

unresolved_never_runs_example :
    (protected_call unresolved callable instant call_arguments surroundings).0 ≢ ran (some 5)
unresolved_never_runs_example =
    unresolved_never_runs unresolved callable instant call_arguments surroundings (some 5) refl refl
      moving

abbrev observer : Observer String
observer = record {
  agent_id = "did:web:example.org:agents:bot";
  action = "trade";
  log_params = true;
  log_result = true;
  repr = λ e. returned e;
}

abbrev observed_call : Observed ℕ String
observed_call = record {
  binding = Binding.bound (("amount", 3) ∷ []);
  kwargs = [];
  started = 1;
  ended = 4;
  timestamp = "";
  caller = none;
  event_id = "1";
}

-- returns at first, then raises
abbrev faltering : Observed ℕ String → ℕ → Ended ℕ String × ℕ
faltering c n = ((if ltb n 1 then returned n else raised "ValueError()"), suc n)

abbrev empty_log : ObservationStore ℕ
empty_log = record { events = []; maxlen = 1; stats = [] }

recordable :
    AllRecordable observer
      (observed_call ∷ observed_call ∷ [])
      (call_all observer faltering (observed_call ∷ observed_call ∷ []) 0).0
unfolding call_all
recordable = (
  record { binds = λ e h. absurd (cc); shows = λ e e' h k. absurd (cc) },
  (record { binds = λ e h. absurd (cc); shows = λ e e' h k. absurd (cc) }, tt),
)

watch_all-call_all_example :
    let (seen, s') =
      watch_all observer faltering (observed_call ∷ observed_call ∷ []) 0 empty_log in
    (seen ≡ call_all observer faltering (observed_call ∷ observed_call ∷ []) 0)
    × ((stats_of observer.agent_id s').total ≡ (stats_of observer.agent_id empty_log).total + 2)
watch_all-call_all_example =
    watch_all-call_all observer faltering (observed_call ∷ observed_call ∷ []) 0 empty_log
      recordable
