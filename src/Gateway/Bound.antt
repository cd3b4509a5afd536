-- ===== src/Gateway/Bound.antt =====
-- What a run of requests keeps of the keys, the registries and the claims.
use asset_embedding_protocol.Prelude.{
  String, ◌≡◌, refl, sym, ap, ◌∙◌, subst, Option, none, some, List, [], ◌∷◌, inl, inr, Option-cases,
  Bool-cases, arith, nat_eq, string_eq, All, ◌≢◌, ◌⊎◌,
}
use asset_embedding_protocol.Number.{Float, Decimal}
use asset_embedding_protocol.Dict
use asset_embedding_protocol.Gateway.{
  Refusal, refused_with, register_keeps, require_admin, AttestationRegistry, key_of,
}
use asset_embedding_protocol.Gateway.Intent.{
  envelope_hash, resolved, tenor_error, oracle_overflow, Resolved, downstream_of,
}
use asset_embedding_protocol.Gateway.Intent.Route.{
  decide, with_key, judge, post_intent, deliver, forward, resolve_for,
}
use asset_embedding_protocol.Gateway.Serve.{
  agent_registration, framework_registration, hash_registration, revocation, reinstatement,
  demo_sync, admin_request, intent_request, malformed, trust_request, asset_request, assets_request,
  pubkey_request, health_request, administer, Request, guarded, handle_all, handle, health,
  get_asset, AdminRequest,
}
use asset_embedding_protocol.Gateway.Site.{Site, Gateway, Moment}
use asset_embedding_protocol.Gateway.Admin.{
  register_attestation_hash, create_revocation, delete_revocation, apply_action,
}
use asset_embedding_protocol.Oracle.Treasury.{TreasuryOracle}
use asset_embedding_protocol.Dict.{Dict}
use asset_embedding_protocol.Models.{CustosEnvelope, Claim}
use asset_embedding_protocol.Pipeline.{Outcome, raised, returned}
use asset_embedding_protocol.Attestation.{VerdictRecord}
use asset_embedding_protocol.Gateway.Frames.{
  get_asset-oracle, register_agent-register, resolve_for-oracle, core-sync_live_demo_claims,
}

module _ {F D Key PrivateKey S : Type 0} ⦃f : Float F⦄ ⦃d : Decimal D F⦄
    (site : Site F D Key PrivateKey S) where
  -- What only an administrator changes: the keys, the registries and the claims.
  abbrev pub registries : Gateway F D Key S → Dict Key × AttestationRegistry × Dict (Claim D)
  registries g = (g.agent_keys, g.attestations, g.claims)

  registries-oracle :
      (g g' : Gateway F D Key S)
      → (o : TreasuryOracle S) × (g' ≡ record g { oracle = o })
      → registries g' ≡ registries g
  registries-oracle g g' (o, e) = ap registries e

  registries-deliver :
      (e : CustosEnvelope F) (x : Option (VerdictRecord F)) (g : Gateway F D Key S)
      → registries (deliver site e x g).1 ≡ registries g
  unfolding deliver forward
  registries-deliver e none g = refl
  registries-deliver e (some r) g =
      elim (Option-cases (downstream_of (Dict.get "downstream" e.intent.parameters))) [
        | inl absent ↦ ground (arith, absent)
        | inr (url, given) ↦ ground (arith, given)
      ]

  registries-decide :
      (m : Moment) (digest : String) (e : CustosEnvelope F) (x : Outcome F) (g : Gateway F D Key S)
      → registries (decide site m digest e x g).1 ≡ registries g
  unfolding decide
  registries-decide m digest e (raised why st) g = refl
  registries-decide m digest e (returned x st) g = elim (Bool-cases x.passed) [
    | inl ok ↦ rw (ok, decide) (registries-deliver e _ (record g { state = st }))
    | inr bad ↦ ground (arith, bad)
  ]

  registries-judge :
      (m : Moment) (digest : String) (e : CustosEnvelope F) (geo : Option String) (key : Key)
      (x : Resolved D) (g : Gateway F D Key S)
      → registries (judge site m digest e geo key x g).1 ≡ registries g
  unfolding judge
  registries-judge m digest e geo key oracle_overflow g = refl
  registries-judge m digest e geo key (tenor_error c) g = refl
  registries-judge m digest e geo key (resolved claim observation) g =
      registries-decide m digest e _ g

  registries-with_key :
      (m : Moment) (digest : String) (e : CustosEnvelope F) (geo : Option String) (key : Option Key)
      (g : Gateway F D Key S)
      → registries (with_key site m digest e geo key g).1 ≡ registries g
  unfolding with_key
  registries-with_key m digest e geo none g = refl
  registries-with_key m digest e geo (some key) g =
      let (x, g') = resolve_for site m e g in
      registries-judge m digest e geo key x g'
      ∙ registries-oracle g g' (resolve_for-oracle site m e g)

  registries-post_intent :
      (m : Moment) (e : CustosEnvelope F) (geo : Option String) (g : Gateway F D Key S)
      → registries (post_intent site m e geo g).1 ≡ registries g
  unfolding post_intent
  registries-post_intent m e geo g =
      elim (Option-cases (envelope_hash site.platform site.sha256_hex e)) [
        | inl wild ↦ ground (arith, wild)
        | inr (digest, x) ↦
            let kept = registries-with_key m digest e geo (key_of e.agent.id g.agent_keys) g in
            ground (arith, x, kept)
      ]

  guarded_status :
      (m : Moment) (refusal : Option Refusal) (q : AdminRequest) (g : Gateway F D Key S)
      → refusal ≢ none
      → (guarded site m refusal q g).1 ≡ g
  unfolding guarded
  guarded_status m none q g refused = absurd (refused refl)
  guarded_status m (some (refused_with n)) q g refused = refl
  guarded_status m (some Refusal.type_error) q g refused = refl

  -- Is a request from no administrator: on a public route, or with a credential that is refused?
  abbrev pub IsPublic : Request F → Type 0
  IsPublic (admin_request presented q) =
      require_admin site.compare site.admin_api_key presented ≢ none
  IsPublic q = Unit

  registries-handle :
      (m : Moment) (q : Request F) (g : Gateway F D Key S)
      → IsPublic q
      → registries (handle site m q g).1 ≡ registries g
  unfolding handle health
  registries-handle m (admin_request presented q) g h =
      ap registries
        (guarded_status m (require_admin site.compare site.admin_api_key presented) q g h)
  registries-handle m (intent_request e geo) g h = registries-post_intent m e geo g
  registries-handle m (malformed detail) g h = refl
  registries-handle m (trust_request agent) g h = refl
  registries-handle m (asset_request asset_id) g h =
      registries-oracle g (get_asset site m asset_id g).1 (get_asset-oracle site m asset_id g)
  registries-handle m assets_request g h = refl
  registries-handle m pubkey_request g h = refl
  registries-handle m health_request g h = refl

  -- However many requests come without an accepted administrator's credential, the keys that agents are
  -- bound to, the registered frameworks and hashes, and the claims stay exactly as they were.
  pub registries-handle_all :
      (qs : List (Moment × Request F)) (g : Gateway F D Key S)
      → All (λ (x : Moment × Request F). IsPublic x.1) qs
      → registries (handle_all site qs g) ≡ registries g
  unfolding handle_all
  registries-handle_all [] g h = refl
  registries-handle_all ((m, q) ∷ qs) g h =
      registries-handle_all qs (handle site m q g).1 h.1 ∙ registries-handle m q g h.0

  administer_keeps :
      (agent : String) (key : Key) (m : Moment) (q : AdminRequest) (g : Gateway F D Key S)
      → key_of agent g.agent_keys ≡ some key
      → key_of agent (administer site m q g).1.agent_keys ≡ some key
  unfolding administer register_attestation_hash create_revocation delete_revocation key_of
  administer_keeps agent key m (agent_registration other text) g h =
      let kept = register_keeps site.b64_to_public_key agent other text key g.agent_keys h in
      subst (λ (x : Gateway F D Key S). Dict.get agent x.agent_keys ≡ some key)
        (sym (register_agent-register site site.b64_to_public_key other text g)) kept
  administer_keeps agent key m (framework_registration framework) g h = h
  administer_keeps agent key m (hash_registration q) g h = ground (arith, h)
  administer_keeps agent key m (revocation q) g h =
      elim (Option-cases (apply_action m q g.state.store)) [
        | inl e ↦ ground (arith, e, h)
        | inr (t, e) ↦ ground (arith, e, h)
      ]
  administer_keeps agent key m (reinstatement other) g h = h
  administer_keeps agent key m demo_sync g h =
      subst (λ (x : Dict Key). Dict.get agent x ≡ some key)
        (sym (ap (λ c. c.1) (core-sync_live_demo_claims site m g))) h

  guarded_keeps :
      (agent : String) (key : Key) (m : Moment) (refusal : Option Refusal) (q : AdminRequest)
      (g : Gateway F D Key S)
      → key_of agent g.agent_keys ≡ some key
      → key_of agent (guarded site m refusal q g).1.agent_keys ≡ some key
  unfolding guarded
  guarded_keeps agent key m (some (refused_with n)) q g h = h
  guarded_keeps agent key m (some Refusal.type_error) q g h = h
  guarded_keeps agent key m none q g h = administer_keeps agent key m q g h

  Request-cases :
      (q : Request F)
      → ((presented : Option String) × (x : AdminRequest) × (q ≡ admin_request presented x))
        ⊎ IsPublic q
  Request-cases (admin_request presented x) = inl (presented, x, refl)
  Request-cases (intent_request e geo) = inr tt
  Request-cases (malformed detail) = inr tt
  Request-cases (trust_request agent) = inr tt
  Request-cases (asset_request asset_id) = inr tt
  Request-cases assets_request = inr tt
  Request-cases pubkey_request = inr tt
  Request-cases health_request = inr tt

  handle_keeps :
      (agent : String) (key : Key) (m : Moment) (q : Request F) (g : Gateway F D Key S)
      → key_of agent g.agent_keys ≡ some key
      → key_of agent (handle site m q g).1.agent_keys ≡ some key
  unfolding handle
  handle_keeps agent key m q g h = elim (Request-cases q) [
    | inl (presented, x, e) ↦
        subst (λ r. key_of agent (handle site m r g).1.agent_keys ≡ some key) (sym e)
          (guarded_keeps agent key m (require_admin site.compare site.admin_api_key presented) x g
            h)
    | inr free ↦
        subst (λ (ks : Dict Key). key_of agent ks ≡ some key)
          (sym (ap (λ r. r.0) (registries-handle m q g free))) h
  ]

  -- Once an agent is bound to a public key, no run of requests, an administrator's included, binds it to
  -- another: the key that its intents are checked under never changes.
  pub handle_all_keeps :
      (agent : String) (key : Key) (qs : List (Moment × Request F)) (g : Gateway F D Key S)
      → key_of agent g.agent_keys ≡ some key
      → key_of agent (handle_all site qs g).agent_keys ≡ some key
  unfolding handle_all
  handle_all_keeps agent key [] g h = h
  handle_all_keeps agent key ((m, q) ∷ qs) g h =
      handle_all_keeps agent key qs (handle site m q g).1 (handle_keeps agent key m q g h)
