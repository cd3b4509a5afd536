-- ===== src/Gateway/Serve.antt =====
-- gateway/server.py: the public routes, and a request as one step of the server. A request runs from
-- its start to its end; what other requests do while it awaits the oracle comes before it or after.
use asset_embedding_protocol.Prelude.{String, Option, none, some, List, [], ◌∷◌, nat_eq, string_eq}
use asset_embedding_protocol.Oracle.Treasury.{
  Sought, observed, no_observation, unsupported_tenor, overflow, get_observation,
}
use asset_embedding_protocol.Gateway.Site.{
  trust_score, overflow_error, health_report, http_exception, asset_report, assets, public_key,
  confirmed, trust_score, Crash,
}
use asset_embedding_protocol.Trust.Score.{score}
use asset_embedding_protocol.Number.{Float, Decimal}
use asset_embedding_protocol.Gateway.Site.{Gateway, Site, Moment, Response, rendered, crashed}
use asset_embedding_protocol.Gateway.Admin.{
  AttestationHashRegistration, register_agent, RevocationRequest, register_attestation_hash,
  create_revocation, delete_revocation,
}
use asset_embedding_protocol.Drift.{check_asset_truth}
use asset_embedding_protocol.Models.{AgentHistory, CustosEnvelope, Claim}
use asset_embedding_protocol.Gateway.{require_admin, register_framework, Refusal, refused_with}
use asset_embedding_protocol.Gateway.Intent.Route.{deny, post_intent}
use asset_embedding_protocol.Trust.{get_history}
use asset_embedding_protocol.Claims.{get_claim, list_claims}
use asset_embedding_protocol.Errors.{schema_invalid, unknown_asset}
use asset_embedding_protocol.Gateway.Sync.{sync_live_demo_claims}

-- what an administrator may ask for; the demo route is there in demo mode only
pub data AdminRequest : Type 0 where
  agent_registration : String → String → AdminRequest
  framework_registration : String → AdminRequest
  hash_registration : AttestationHashRegistration → AdminRequest
  revocation : RevocationRequest → AdminRequest
  reinstatement : String → AdminRequest
  demo_sync : AdminRequest

-- A request, with the header X-Custos-Admin-Key or X-Custos-Geo where its route reads one.
pub data Request (F : Type 0) : Type 0 where
  admin_request : Option String → AdminRequest → Request F
  intent_request : CustosEnvelope F → Option String → Request F
  malformed : String → Request F
  trust_request asset_request : String → Request F
  assets_request pubkey_request health_request : Request F

-- AgentHistory(agent_id=…)
unfoldable pub blank_history : String → AgentHistory
blank_history agent = record {
  agent_id = agent;
  total_intents = 0;
  successful_intents = 0;
  boundary_violations = 0;
  revocation_count = 0;
  attestation_changes = 0;
  delegation_depth = 0;
  first_seen = none;
  last_seen = none;
}

abbrev pub history_or_blank : String → Option AgentHistory → AgentHistory
history_or_blank agent none = blank_history agent
history_or_blank agent (some h) = h

module _ {F D Key PrivateKey S : Type 0} ⦃f : Float F⦄ ⦃d : Decimal D F⦄
    (site : Site F D Key PrivateKey S) where
  -- get_trust_score
  unfoldable pub get_trust_score : String → Gateway F D Key S → Response F D
  unfolding score get_history blank_history
  get_trust_score agent g = rendered 200 (
      trust_score (record {
        agent_id = agent;
        score = score agent g.state.trust;
        history = history_or_blank agent (get_history agent g.state.trust);
      }))

  -- the answer of get_asset about a claim
  unfoldable pub asset_answer : Moment → Claim D → Sought → Response F D
  unfolding check_asset_truth
  asset_answer m c (observed x) =
      rendered 200
        (asset_report c (some x) (check_asset_truth (some c) (some x) site.drift_config m.now))
  asset_answer m c no_observation =
      rendered 200 (asset_report c none (check_asset_truth (some c) none site.drift_config m.now))
  asset_answer m c unsupported_tenor =
      rendered 200 (asset_report c none (check_asset_truth (some c) none site.drift_config m.now))
  asset_answer m c overflow = crashed overflow_error

  unfoldable pub get_asset : Moment → String → Gateway F D Key S → Response F D × Gateway F D Key S
  unfolding deny get_claim get_observation asset_answer
  get_asset m asset_id g = elim (get_claim asset_id g.claims) [
    | none ↦ (
      deny site m "" "diagnostic" (some asset_id) (unknown_asset ∷ [])
          "The requested asset is not present in the claim registry." none none,
      g,
    )
    | some c ↦
        let (x, oracle) =
          get_observation site.reader site.client c.underlying_tenor m.oracle g.oracle in
        (asset_answer m c x, record g { oracle = oracle })
  ]

  -- the answer of `health`
  unfoldable pub health_answer : Sought → Response F D
  health_answer (observed x) = rendered 200 (health_report (some x))
  health_answer no_observation = rendered 503 (health_report none)
  health_answer unsupported_tenor = rendered 503 (health_report none)
  health_answer overflow = crashed overflow_error

  unfoldable pub health : Moment → Gateway F D Key S → Response F D × Gateway F D Key S
  unfolding get_observation health_answer
  health m g =
      let (x, oracle) = get_observation site.reader site.client "3M" m.oracle g.oracle in
      (health_answer x, record g { oracle = oracle })

  -- _schema_error
  unfoldable pub schema_error : Moment → String → Response F D
  unfolding deny
  schema_error m detail = deny site m "" "" none (schema_invalid ∷ []) detail none none

  -- the route of an administrator's request
  unfoldable pub administer :
      Moment → AdminRequest → Gateway F D Key S → Response F D × Gateway F D Key S
  unfolding register_agent register_framework register_attestation_hash create_revocation
      delete_revocation sync_live_demo_claims
  administer m (agent_registration agent text) g =
      register_agent site.b64_to_public_key agent text g
  administer m (framework_registration framework) g = (
    rendered 201 (confirmed framework),
    record g { attestations = register_framework framework g.attestations },
  )
  administer m (hash_registration q) g = register_attestation_hash q g
  administer m (revocation q) g = create_revocation m q g
  administer m (reinstatement subject) g = delete_revocation m subject g
  administer m demo_sync g = sync_live_demo_claims site m g

  -- Depends(require_admin) before the route
  unfoldable pub guarded :
      Moment → Option Refusal → AdminRequest → Gateway F D Key S → Response F D × Gateway F D Key S
  unfolding administer
  guarded m (some (refused_with n)) q g = (http_exception n, g)
  guarded m (some Refusal.type_error) q g = (crashed Crash.type_error, g)
  guarded m none q g = administer m q g

  -- one request
  unfoldable pub handle : Moment → Request F → Gateway F D Key S → Response F D × Gateway F D Key S
  unfolding guarded require_admin post_intent schema_error get_trust_score get_asset health
      list_claims
  handle m (admin_request presented q) g =
      guarded m (require_admin site.compare site.admin_api_key presented) q g
  handle m (intent_request e geo) g = post_intent site m e geo g
  handle m (malformed detail) g = (schema_error m detail, g)
  handle m (trust_request agent) g = (get_trust_score agent g, g)
  handle m (asset_request asset_id) g = get_asset m asset_id g
  handle m assets_request g = (rendered 200 (assets (list_claims g.claims)), g)
  handle m pubkey_request g =
      (rendered 200 (public_key (site.records.public_key_b64 site.signer_key)), g)
  handle m health_request g = health m g

  -- the server after a run of requests
  unfoldable pub handle_all : List (Moment × Request F) → Gateway F D Key S → Gateway F D Key S
  unfolding handle
  handle_all [] g = g
  handle_all ((m, q) ∷ qs) g = handle_all qs (handle m q g).1
