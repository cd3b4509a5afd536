-- ===== src/Tests/Server.antt =====
-- Examples of requests to the server.
use asset_embedding_protocol.Prelude.{
  ℕ, ◌≡◌, refl, ◌==◌, none, some, List, [], ◌∷◌, true, false, All, nat_eq, string_eq, contains,
  subset, ◌≢◌, arith, ◌≤◌, length, ◌&&◌, if◌then◌else◌,
}
use asset_embedding_protocol.Models.{action_value}
use asset_embedding_protocol.Text.{strip, upper, split_commas, codes_beq}
use asset_embedding_protocol.Boundaries.{
  check_boundaries, violations, action_violations, transaction_violations, numeric, day_violations,
  window_violations, geo_violations, truthy, permitted, normalized, class_violations,
}
use asset_embedding_protocol.Delegation.{
  check_delegation, delegation_detail, chain_detail, last_link, discontinuity, untimely,
  has_expired, widening, envelope_widening, containment_violation, list_contained,
  numeric_limit_contained, geo_contained, geo_set, window_contained,
}
use asset_embedding_protocol.Drift.{
  reference, age_days, staleness, drift, backing_ratio, staleness_scores, drift_scores,
  backing_scores, check_backing, check_drift, check_times, check_asset_truth,
}
use asset_embedding_protocol.Number.{max_float}
use asset_embedding_protocol.Trust.{
  reserve_amount, new_history, get_or_create, amend, record_violation, record_attestation,
  record_delegation_depth, total, amounts, fresh, enter, prune, store_entries, entries_of,
}
use asset_embedding_protocol.Trust.Score.{meets_threshold}
use asset_embedding_protocol.Revocation.{
  check_nonce, drop_stale, drop_excess, is_revoked, is_suspended, live_record, live_of, lapsed,
  freshness,
}
use asset_embedding_protocol.Canonical.{
  excluding, canonical_bytes, signable_payload, verify_signature, hmac_verify, normalize_numbers,
  normalize_items, normalize_fields,
}
use asset_embedding_protocol.Pipeline.{
  verify_intent, tier_order, effective_tier, signature_ok, check_signature, admission, ◌>>=◌, pure,
  pass, plain, require, nonce_matches, nonce_stage, replay_stage, reserve_stage, judge_stage,
  amount_stage, boundaries_stage, agent_stage, issuer_stage, fresh_stage, revocation_stage, settle,
  asset_stage, framework_unknown, build_differs, prompt_differs, attestation_stage,
  delegation_stage, trust_stage, fail, fail_authenticated, succeed, tier_2_stages, tier_1_stages,
  later_stages, stages, authenticated, conclude, finish, resume,
}
use asset_embedding_protocol.Number.Fixed.{fixed, fixed_decimal}
use asset_embedding_protocol.Revocation.{agent}
use asset_embedding_protocol.Dict.{get, put, remove}
use asset_embedding_protocol.Gateway.Site.{Site, Gateway, Moment, http_error}
use asset_embedding_protocol.Gateway.Serve.{
  Request, handle, handle_all, admin_request, intent_request, health_request, revocation,
  reinstatement, agent_registration,
}
use asset_embedding_protocol.Gateway.Allowed.{grants, IsAllowed, post_intent-IsAllowed}
use asset_embedding_protocol.Tests.Fixtures.{
  envelope, platform, claim, observation, drift_config, noon, readings, state,
}
use asset_embedding_protocol.Tests.Feeds.{reader, client, clocks}
use asset_embedding_protocol.Tests.Records.{records}
use asset_embedding_protocol.Gateway.Intent.{envelope_hash, resolved_as, downstream_of}
use asset_embedding_protocol.Gateway.Intent.Route.{
  post_intent, with_key, resolve_for, resolve, judge, arguments_for, decide, deliver,
}
use asset_embedding_protocol.Gateway.{key_of, require_admin, is_ascii, refused_with}
use asset_embedding_protocol.Claims.{get_claim}
use asset_embedding_protocol.Oracle.Treasury.{get_observation, observe_field, cached_or_search}
use asset_embedding_protocol.Oracle.{cache_get, get_entry}
use asset_embedding_protocol.Gateway.Bound.{registries, handle_all_keeps, registries-handle_all}
use asset_embedding_protocol.Gateway.Revoked.{revoked_never_granted, is_lifting}
use asset_embedding_protocol.Attestation.{sign_attestation, attach_proof, with_proof}
use asset_embedding_protocol.Gateway.Admin.{RevocationRequest}
use asset_embedding_protocol.Gateway.Denied.{IsAnswered, post_intent-IsAnswered}
use asset_embedding_protocol.Prelude.Int.{pos}
use asset_embedding_protocol.Gateway.Reachable.{handle_all-Bounded}

abbrev site : Site ℕ ℕ ℕ ℕ ℕ
site = record {
  platform = platform;
  records = records;
  reader = reader;
  client = client;
  post = λ url body header n. (http_error, n);
  header_of = λ fs. "header";
  str = λ v. "url";
  sha256_hex = λ bytes. "digest";
  show_detail = λ x. "detail";
  b64_to_public_key = λ s. some 7;
  compare = λ a b. if is_ascii a && is_ascii b then some (a == b) else none;
  set_order = λ tenors. tenors;
  signer_key = 7;
  attestation_ttl_seconds = 300;
  admin_api_key = some "secret";
  min_trust_score = 0;
  drift_config = drift_config;
}

-- a gateway that knows the agent's key and the asset, with an observation in its cache
abbrev gateway : Gateway ℕ ℕ ℕ ℕ
gateway = record {
  claims = ("token", claim) ∷ [];
  oracle = record {
    url = none;
    cache = record {
      ttl_seconds = 60;
      values = ("3M", record { value = observation; stored_at = 0 }) ∷ [];
    };
    network = 0;
  };
  state = state;
  agent_keys = ("agent", 7) ∷ [];
  attestations = record { frameworks = []; build_hashes = []; prompt_hashes = [] };
}

abbrev moment : Moment
moment = record {
  readings = readings;
  now = noon;
  oracle = clocks;
  sync_clocks = λ tenor. clocks;
  signed_at = noon;
  hex = "0";
  revoked_at = noon;
  suspended_from = noon;
  synced_at = noon;
  recorded_at = noon;
}

granted : grants (post_intent site moment envelope (some "us ") gateway).0 ≡ true
unfolding post_intent envelope_hash with_key key_of resolve_for resolve get_claim get_observation
    observe_field cached_or_search cache_get get_entry resolved_as judge arguments_for decide
    deliver downstream_of sign_attestation attach_proof with_proof verify_intent tier_order
    effective_tier signature_ok check_signature admission ◌>>=◌ pure pass plain require
    nonce_matches nonce_stage replay_stage reserve_stage judge_stage amount_stage boundaries_stage
    agent_stage issuer_stage fresh_stage revocation_stage settle asset_stage framework_unknown
    build_differs prompt_differs attestation_stage delegation_stage trust_stage fail
    fail_authenticated succeed tier_2_stages tier_1_stages later_stages stages authenticated
    conclude finish resume check_nonce drop_stale drop_excess is_revoked is_suspended live_record
    live_of lapsed freshness excluding canonical_bytes signable_payload verify_signature hmac_verify
    normalize_numbers normalize_items normalize_fields reserve_amount record_violation
    record_attestation record_delegation_depth amend get_or_create new_history total amounts fresh
    enter prune store_entries entries_of meets_threshold reference age_days staleness drift
    backing_ratio staleness_scores drift_scores backing_scores check_backing check_drift check_times
    check_asset_truth max_float check_delegation delegation_detail chain_detail last_link
    discontinuity untimely has_expired widening envelope_widening containment_violation
    list_contained subset contains numeric_limit_contained geo_contained geo_set window_contained
    check_boundaries violations action_violations action_value transaction_violations numeric get
    put remove day_violations window_violations geo_violations truthy permitted normalized strip
    upper split_commas codes_beq class_violations
granted = refl

post_intent-IsAllowed_example : IsAllowed site moment envelope (some "us ") gateway
post_intent-IsAllowed_example =
    post_intent-IsAllowed site moment envelope (some "us ") gateway granted

abbrev ban : RevocationRequest
ban = record {
  subject_id = "agent";
  subject_type = agent;
  action = "revoke";
  reason = "";
  duration_seconds = pos 0;
}

-- anyone's requests, and a reinstatement with a wrong credential
abbrev requests : List (Moment × Request ℕ)
requests =
    (moment, health_request)
    ∷ (moment, admin_request (some "guess") (reinstatement "agent"))
    ∷ (moment, intent_request envelope none)
    ∷ []

accepted : require_admin site.compare site.admin_api_key (some "secret") ≡ none
unfolding require_admin is_ascii truthy
accepted = refl

wrong : require_admin site.compare site.admin_api_key (some "guess") ≡ some (refused_with 401)
unfolding require_admin is_ascii truthy
wrong = refl

spared : All (λ (x : Moment × Request ℕ). is_lifting site "agent" x.1 ≡ false) requests
unfolding require_admin is_ascii truthy is_lifting
spared = (refl, (refl, (refl, tt)))

revoked_never_granted_example :
    let revoked = (handle site moment (admin_request (some "secret") (revocation ban)) gateway).1 in
    grants (handle site moment (intent_request envelope none) (handle_all site requests revoked)).0
    ≡ false
revoked_never_granted_example =
    revoked_never_granted site moment moment (some "secret") ban requests envelope none gateway
      accepted refl refl spared

-- the gateway before the agent's key is registered, which denies its intents
abbrev keyless : Gateway ℕ ℕ ℕ ℕ
keyless = record gateway { agent_keys = [] }

post_intent-IsAnswered_example : IsAnswered (post_intent site moment envelope none keyless).0
post_intent-IsAnswered_example = post_intent-IsAnswered site moment envelope none keyless

unauthorized : require_admin site.compare site.admin_api_key (some "guess") ≢ none
unauthorized e = absurd (ground (arith, wrong, e))

registries-handle_all_example :
    registries site (handle_all site requests gateway) ≡ registries site gateway
registries-handle_all_example =
    registries-handle_all site requests gateway (tt, (unauthorized, (tt, tt)))

bound : key_of "agent" gateway.agent_keys ≡ some 7
unfolding key_of get
bound = refl

handle_all_keeps_example :
    key_of "agent"
      (handle_all site
        ((moment, admin_request (some "secret") (agent_registration "agent" "other")) ∷ requests)
        gateway).agent_keys
    ≡ some 7
handle_all_keeps_example =
    handle_all_keeps site "agent" 7
      ((moment, admin_request (some "secret") (agent_registration "agent" "other")) ∷ requests)
      gateway bound

handle_all-Bounded_example :
    let g' = handle_all site requests gateway in
    length g'.state.store.nonces ≤ g'.state.store.max_nonces
handle_all-Bounded_example = handle_all-Bounded site requests gateway (omega arith)
