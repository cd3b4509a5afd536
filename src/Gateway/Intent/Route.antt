-- ===== src/Gateway/Intent/Route.antt =====
-- gateway/server.py: the route of POST /v1/intent, from the envelope to the answer.
use asset_embedding_protocol.Prelude.{
  String, Option, none, some, List, [], ◌∷◌, nat_eq, string_eq, if◌then◌else◌,
}
use asset_embedding_protocol.Number.{Float, Decimal}
use asset_embedding_protocol.Dict
use asset_embedding_protocol.Gateway.Site.{non_finite_number, downstream_error, Crash}
use asset_embedding_protocol.Gateway.Site.{
  Site, Moment, Response, Gateway, crashed, rendered, overflow_error, forwarded, index_error,
  verdict, unreachable, downstream_error,
}
use asset_embedding_protocol.Models.{
  Claim, Observation, CustosEnvelope, AssetScores, Reference, action_value,
}
use asset_embedding_protocol.Attestation.{sign_denial, VerdictRecord, sign_attestation}
use asset_embedding_protocol.Gateway.{key_of}
use asset_embedding_protocol.Oracle.Treasury.{get_observation}
use asset_embedding_protocol.Errors.{
  CustosErrorCode, invalid_signature, tenor_unsupported, http_status_for, downstream_unreachable,
}
use asset_embedding_protocol.Claims.{get_claim}
use asset_embedding_protocol.Pipeline.{
  Escape, non_finite_payload, amount_too_large, verify_intent, Outcome, Arguments, is_tier_0,
  raised, returned,
}
use asset_embedding_protocol.Text.{concat}
use asset_embedding_protocol.Boundaries.{numeric}
use asset_embedding_protocol.Gateway.Intent.{
  envelope_hash, downstream_of, Resolved, resolved_as, Forwarded, forwarded_as, resolved,
  tenor_error, oracle_overflow, answered, connection_error, uncaught,
}
use asset_embedding_protocol.Delegation.{default_delegation_config}

-- the exception that leaves the route
unfoldable pub crash_of : Escape → Crash
crash_of non_finite_payload = non_finite_number
crash_of amount_too_large = overflow_error

-- the amount that is attested; no envelope passes with one that is too large
unfoldable pub attested_amount : {F : Type 0} → Option (Option F) → Option F
attested_amount none = none
attested_amount (some amount) = amount

module _ {F D Key PrivateKey S : Type 0} ⦃f : Float F⦄ ⦃d : Decimal D F⦄
    (site : Site F D Key PrivateKey S) where
  -- http_status_for(errors[0]) of a denial that was signed
  unfoldable pub denied : List CustosErrorCode → Option (VerdictRecord F) → Response F D
  denied errors none = crashed non_finite_number
  denied [] (some r) = crashed index_error
  denied (code ∷ codes) (some r) = rendered (http_status_for code) (verdict r)

  -- _deny
  unfoldable pub deny :
      Moment
      → String
      → String
      → Option String
      → List CustosErrorCode
      → String
      → Option (AssetScores F)
      → Option Reference
      → Response F D
  unfolding denied sign_denial
  deny m envelope_hash agent asset errors detail scores reference = denied errors (
      sign_denial site.platform site.records site.signer_key envelope_hash agent asset errors detail
        scores reference m.signed_at m.hex)

  -- _resolve
  unfoldable pub resolve : Moment → String → Gateway F D Key S → Resolved D × Gateway F D Key S
  unfolding get_claim get_observation resolved_as
  resolve m target g = elim (get_claim target g.claims) [
    | none ↦ (resolved none none, g)
    | some claim ↦
        let (sought, oracle) =
          get_observation site.reader site.client claim.underlying_tenor m.oracle g.oracle in
        (resolved_as claim sought, record g { oracle = oracle })
  ]

  -- what post_intent resolves, which is nothing at tier 0
  unfoldable pub resolve_for :
      Moment → CustosEnvelope F → Gateway F D Key S → Resolved D × Gateway F D Key S
  unfolding resolve
  resolve_for m e g =
      if is_tier_0 e.verification_tier then (resolved none none, g) else resolve m e.intent.target g

  -- the arguments of verify_intent, with its defaults
  unfoldable pub arguments_for :
      Moment
      → CustosEnvelope F
      → Option String
      → Key
      → Option (Claim D)
      → Option Observation
      → Gateway F D Key S
      → Arguments F D Key
  arguments_for m e geo key claim observation g = record {
    envelope = e;
    public_key = key;
    claim = claim;
    observation = observation;
    drift_config = site.drift_config;
    delegation_config = default_delegation_config;
    min_trust_score = site.min_trust_score;
    registered_frameworks = some g.attestations.frameworks;
    known_build_hashes = some g.attestations.build_hashes;
    known_prompt_hashes = some g.attestations.prompt_hashes;
    hmac_key = none;
    request_geo = geo;
    clock_skew_seconds = site.drift_config.clock_skew_seconds;
    max_revocation_staleness_ms = 500;
    now = m.now;
  }

  -- forward, which leaves the network as `post` does
  unfoldable pub forward :
      String
      → CustosEnvelope F
      → VerdictRecord F
      → Gateway F D Key S
      → Forwarded F × Gateway F D Key S
  forward url e r g =
      let header = site.header_of (site.records.dump_record r) in
      let (posted, s) = site.post url (site.platform.dump_envelope e) header g.oracle.network in
      (forwarded_as posted, record g { oracle = record (g.oracle) { network = s } })

  -- the answer about an intent that was forwarded
  unfoldable pub relayed : VerdictRecord F → Forwarded F → Response F D
  relayed r (answered status body) = rendered 200 (forwarded r status body)
  relayed r connection_error =
      rendered (http_status_for downstream_unreachable) (unreachable r downstream_unreachable)
  relayed r uncaught = crashed downstream_error

  -- the end of post_intent, once the attestation is signed
  unfoldable pub deliver :
      CustosEnvelope F
      → Option (VerdictRecord F)
      → Gateway F D Key S
      → Response F D × Gateway F D Key S
  unfolding downstream_of forward relayed
  deliver e none g = (crashed non_finite_number, g)
  deliver e (some r) g = elim (downstream_of (Dict.get "downstream" e.intent.parameters)) [
    | none ↦ (rendered 200 (verdict r), g)
    | some url ↦ let (x, g') = forward (site.str url) e r g in (relayed r x, g')
  ]

  -- what follows the call of verify_intent
  unfoldable pub decide :
      Moment
      → String
      → CustosEnvelope F
      → Outcome F
      → Gateway F D Key S
      → Response F D × Gateway F D Key S
  unfolding deny deliver sign_attestation crash_of attested_amount
  decide m digest e (raised why st) g = (crashed (crash_of why), record g { state = st })
  decide m digest e (returned x st) g =
      let g' : Gateway F D Key S = record g { state = st } in
      if x.passed
      then deliver e
          (sign_attestation site.platform site.records site.signer_key site.attestation_ttl_seconds
            digest e.agent.id (some e.intent.target) (action_value e.intent.action)
            (attested_amount (numeric (Dict.get "amount" e.intent.parameters))) x.tier_used x.scores
            x.reference m.signed_at m.hex)
          g'
      else (
        deny m digest e.agent.id (some e.intent.target) x.errors (site.show_detail x.detail)
            x.scores x.reference,
        g',
      )

  -- the verification of an intent whose claim was resolved
  unfoldable pub judge :
      Moment
      → String
      → CustosEnvelope F
      → Option String
      → Key
      → Resolved D
      → Gateway F D Key S
      → Response F D × Gateway F D Key S
  unfolding decide arguments_for verify_intent
  judge m digest e geo key oracle_overflow g = (crashed overflow_error, g)
  judge m digest e geo key (tenor_error c) g = (
    deny m digest e.agent.id (some e.intent.target) (tenor_unsupported ∷ [])
        (concat "Tenor " (concat c.underlying_tenor " has no yield-curve mapping.")) none none,
    g,
  )
  judge m digest e geo key (resolved claim observation) g =
      let a = arguments_for m e geo key claim observation g in
      decide m digest e (verify_intent site.platform a m.readings g.state) g

  -- the part of post_intent that has a key
  unfoldable pub with_key :
      Moment
      → String
      → CustosEnvelope F
      → Option String
      → Option Key
      → Gateway F D Key S
      → Response F D × Gateway F D Key S
  unfolding deny judge resolve_for
  with_key m digest e geo none g = (
    deny m digest e.agent.id (some e.intent.target) (invalid_signature ∷ [])
        (concat "No registered key for agent "
          (concat e.agent.id "; signature cannot be verified."))
        none none,
    g,
  )
  with_key m digest e geo (some key) g =
      let (x, g') = resolve_for m e g in judge m digest e geo key x g'

  -- post_intent
  unfoldable pub post_intent :
      Moment
      → CustosEnvelope F
      → Option String
      → Gateway F D Key S
      → Response F D × Gateway F D Key S
  unfolding with_key envelope_hash key_of
  post_intent m e geo g = elim (envelope_hash site.platform site.sha256_hex e) [
    | none ↦ (crashed non_finite_number, g)
    | some digest ↦ with_key m digest e geo (key_of e.agent.id g.agent_keys) g
  ]
