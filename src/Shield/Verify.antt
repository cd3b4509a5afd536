-- ===== src/Shield/Verify.antt =====
-- custos_protocol/shield.py: `_verify`, and the synchronous wrapper of `protect`.
use asset_embedding_protocol.Prelude.{
  String, Option, none, some, ◌==◌, nat_eq, string_eq, if◌then◌else◌, contains,
}
use asset_embedding_protocol.Number.{Float, Decimal}
use asset_embedding_protocol.Dict
use asset_embedding_protocol.Dict.{Dict}
use asset_embedding_protocol.Models.{CustosEnvelope, Claim, Value, Observation}
use asset_embedding_protocol.Pipeline.{
  returned, raised, verify_intent, Outcome, State, Arguments, Escape,
}
use asset_embedding_protocol.Envelope.{create_envelope, sign_envelope}
use asset_embedding_protocol.Shield.{
  CallArguments, build_parameters, call_target, Protection, Surroundings, Instant, Verified,
  store_or_new, engine_or_new, if_given, Prepared, Resolution, resolution_of, valid_on_violation,
  Called, invalid_on_violation, invalid_envelope, no_private_key, non_finite_payload,
  resolver_raised, custos_violation, cleared, blocked, refused, prepared, unprepared, resolution,
  resolver_error, ran, skipped, stopped, ShieldError, amount_too_large,
}
use asset_embedding_protocol.Drift.{default_drift_config}
use asset_embedding_protocol.Delegation.{default_delegation_config}

module _ {F D Key PrivateKey W : Type 0} ⦃f : Float F⦄ ⦃d : Decimal D F⦄
    (p : Protection F D Key PrivateKey W) where
  -- create_envelope and sign_envelope for a target
  unfoldable pub prepare_for : Instant → String → Dict (Value F) → Prepared F
  unfolding create_envelope sign_envelope
  prepare_for i target parameters =
      elim (create_envelope p.passport p.action target parameters p.tier 300 i.created_at i.hex) [
        | none ↦ unprepared invalid_envelope
        | some e ↦ elim p.passport.private_key [
          | none ↦ unprepared no_private_key
          | some key ↦ elim (sign_envelope p.platform p.signing e key "" i.signed_at) [
            | none ↦ unprepared non_finite_payload
            | some signed ↦ prepared target signed
          ]
        ]
      ]

  unfoldable pub prepare : Instant → CallArguments F → Prepared F
  unfolding prepare_for build_parameters call_target
  prepare i a =
      let parameters = build_parameters a in
      elim (call_target (Dict.get "target" parameters) p.target) [
        | none ↦ unprepared invalid_envelope
        | some target ↦ prepare_for i target (Dict.remove "target" parameters)
      ]

  -- the observation of a claim that was resolved
  unfoldable pub resolve_observation : Claim D → W → Resolution D × W
  resolve_observation c w = elim p.observation_resolver [
    | none ↦ (resolution (some c) none, w)
    | some r ↦ let (o, w') = r c w in (resolution_of c o, w')
  ]

  -- what follows the answer of the claim resolver
  unfoldable pub resolve_rest : Option (Option (Claim D)) → W → Resolution D × W
  unfolding resolve_observation
  resolve_rest none w = (resolver_error, w)
  resolve_rest (some none) w = (resolution none none, w)
  resolve_rest (some (some c)) w = resolve_observation c w

  -- the claim and the observation of a target
  unfoldable pub resolve_target : String → W → Resolution D × W
  unfolding resolve_rest
  resolve_target target w = elim p.claim_resolver [
    | none ↦ (resolution none none, w)
    | some r ↦ let (c, w') = r target w in resolve_rest c w'
  ]

  -- the arguments of verify_intent, with its defaults
  unfoldable pub shield_arguments :
      Instant → CustosEnvelope F → Option (Claim D) → Option Observation → Arguments F D Key
  shield_arguments i signed claim observation = record {
    envelope = signed;
    public_key = p.passport.public_key;
    claim = claim;
    observation = observation;
    drift_config = default_drift_config;
    delegation_config = default_delegation_config;
    min_trust_score = f.nought;
    registered_frameworks = none;
    known_build_hashes = none;
    known_prompt_hashes = none;
    hmac_key = none;
    request_geo = none;
    clock_skew_seconds = 5;
    max_revocation_staleness_ms = 500;
    now = i.verified_at;
  }

  -- the store and the engine that a call verifies with
  abbrev pub state_for : Instant → Surroundings F W → State F
  state_for i s = record {
    store = store_or_new s.revocation_store i.store_made_at;
    trust = engine_or_new s.trust_engine;
  }

  -- the surroundings after a verification
  abbrev pub leaving : State F → Surroundings F W → Surroundings F W
  leaving st s = record s {
    revocation_store = if_given s.revocation_store st.store;
    trust_engine = if_given s.trust_engine st.trust;
  }

  -- an exception of verify_intent
  abbrev pub error_of : Escape → ShieldError F
  error_of Escape.non_finite_payload = non_finite_payload
  error_of Escape.amount_too_large = amount_too_large

  -- the reaction to the outcome of verify_intent
  unfoldable pub react : Outcome F → Surroundings F W → Verified F × Surroundings F W
  react (raised why st) s = (refused (error_of why), leaving st s)
  react (returned x st) s = (
    (if x.passed
        then cleared x
        else if p.on_violation == "raise"
        then refused (custos_violation x)
        else blocked),
    leaving st s,
  )

  -- the call of verify_intent on what was resolved
  unfoldable pub verify_resolved :
      Instant → CustosEnvelope F → Resolution D → Surroundings F W → Verified F × Surroundings F W
  unfolding react verify_intent shield_arguments
  verify_resolved i signed resolver_error s = (refused resolver_raised, s)
  verify_resolved i signed (resolution claim observation) s =
      react
        (verify_intent p.platform (shield_arguments i signed claim observation) i.readings
          (state_for i s))
        s

  -- what follows the making of the envelope
  unfoldable pub verify_prepared :
      Instant → Prepared F → Surroundings F W → Verified F × Surroundings F W
  unfolding verify_resolved resolve_target
  verify_prepared i (unprepared e) s = (refused e, s)
  verify_prepared i (prepared target signed) s =
      let (x, w) = resolve_target target s.world in
      verify_resolved i signed x (record s { world = w })

  -- _verify
  unfoldable pub verify_call :
      Instant → CallArguments F → Surroundings F W → Verified F × Surroundings F W
  unfolding verify_prepared prepare
  verify_call i a s =
      if contains p.on_violation valid_on_violation
      then verify_prepared i (prepare i a) s
      else (refused invalid_on_violation, s)

  -- the rest of sync_wrapper
  unfoldable pub proceed_with :
      {R : Type 0}
      → (W → Option R × W)
      → Verified F
      → Surroundings F W
      → Called F R × Surroundings F W
  proceed_with func (cleared x) s = let (y, w) = func s.world in (ran y, record s { world = w })
  proceed_with func blocked s = (skipped, s)
  proceed_with func (refused e) s = (stopped e, s)

  -- sync_wrapper
  unfoldable pub protected_call :
      {R : Type 0}
      → (W → Option R × W)
      → Instant
      → CallArguments F
      → Surroundings F W
      → Called F R × Surroundings F W
  unfolding proceed_with verify_call
  protected_call func i a s = let (x, s') = verify_call i a s in proceed_with func x s'
