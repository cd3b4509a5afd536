-- ===== src/Gateway/Kept.antt =====
-- A property of the revocation store that the server keeps over any run of requests.
use asset_embedding_protocol.Prelude.{
  ℕ, String, ◌≡◌, sym, ap, subst, Option, none, some, inl, inr, Option-cases, arith, nat_eq,
  string_eq, List, [], ◌∷◌, All,
}
use asset_embedding_protocol.Number.{Float, Decimal}
use asset_embedding_protocol.Gateway.Intent.{
  resolved, tenor_error, oracle_overflow, envelope_hash, Resolved,
}
use asset_embedding_protocol.Gateway.Intent.Route.{
  judge, post_intent, with_key, resolve_for, arguments_for,
}
use asset_embedding_protocol.Gateway.Serve.{
  agent_registration, framework_registration, hash_registration, revocation, reinstatement,
  demo_sync, AdminRequest, administer,
}
use asset_embedding_protocol.Gateway.Admin.{
  apply_action, RevocationRequest, register_agent, register_attestation_hash, create_revocation,
  delete_revocation,
}
use asset_embedding_protocol.Revocation.{RevocationStore, reinstate}
use asset_embedding_protocol.Gateway.Site.{Moment, Site, Gateway}
use asset_embedding_protocol.Models.{CustosEnvelope}
use asset_embedding_protocol.Oracle.Treasury.{TreasuryOracle}
use asset_embedding_protocol.Gateway.{Refusal, refused_with, key_of}
use asset_embedding_protocol.Gateway.Frames.{
  resolve_for-oracle, core-sync_live_demo_claims, core-decide, register_agent-register,
}
use asset_embedding_protocol.Pipeline.{verify_intent, State, Arguments, Readings}
use asset_embedding_protocol.Prelude.{
  ℕ, String, ◌≡◌, Option, none, some, List, [], ◌∷◌, inl, inr, arith, nat_eq, string_eq, All, subst,
}
use asset_embedding_protocol.Number.{Float, Decimal}
use asset_embedding_protocol.Gateway.Serve.{
  admin_request, intent_request, malformed, trust_request, asset_request, assets_request,
  pubkey_request, health_request, revocation, AdminRequest, handle_all, guarded, handle, Request,
  health, administer, get_asset,
}
use asset_embedding_protocol.Gateway.Site.{Site, Moment, Gateway}
use asset_embedding_protocol.Models.{CustosEnvelope}
use asset_embedding_protocol.Gateway.Admin.{RevocationRequest, create_revocation}
use asset_embedding_protocol.Gateway.{require_admin}
use asset_embedding_protocol.Gateway.Intent.Route.{post_intent, arguments_for}
use asset_embedding_protocol.Gateway.Frames.{get_asset-oracle}
use asset_embedding_protocol.Verification.Unauthenticated.{state_of}

-- An admin request is fine if it is refused or `Fine`.
abbrev pub FineIf : (AdminRequest → Type 0) → Option Refusal → AdminRequest → Type 0
FineIf Fine (some refusal) q = Unit
FineIf Fine none q = Fine q

module _ {F D Key PrivateKey S : Type 0} ⦃f : Float F⦄ ⦃d : Decimal D F⦄
    (site : Site F D Key PrivateKey S) where
  -- What keeps `P`: the verification, and the commands of the administrator that are `Fine`.
  pub record IsKept (P : RevocationStore → Type 0) (Fine : AdminRequest → Type 0) : Type 0 where
    pub verified :
        (a : Arguments F D Key) (r : Readings) (st : State F)
        → P st.store
        → P (state_of (verify_intent site.platform a r st)).store
    pub acted :
        (m : Moment) (q : RevocationRequest) (s t : RevocationStore)
        → Fine (revocation q)
        → apply_action m q s ≡ some t
        → P s
        → P t
    pub reinstated :
        (subject : String) (synced : ℕ) (s : RevocationStore)
        → Fine (reinstatement subject)
        → P s
        → P (reinstate subject synced s).1

  -- Is a request fine, so far as it is one of an accepted administrator?
  abbrev pub IsFine : (AdminRequest → Type 0) → Request F → Type 0
  IsFine Fine (admin_request presented q) =
      FineIf Fine (require_admin site.compare site.admin_api_key presented) q
  IsFine Fine q = Unit

  module _ {P : RevocationStore → Type 0} {Fine : AdminRequest → Type 0} (k : IsKept P Fine) where
    abbrev Keeps : Gateway F D Key S → Type 0
    Keeps g = P g.state.store

    through :
        (g g' : Gateway F D Key S)
        → (o : TreasuryOracle S) × (g' ≡ record g { oracle = o })
        → Keeps g
        → Keeps g'
    through g g' (o, e) h = subst Keeps (sym e) h

    judge-Keeps :
        (m : Moment) (digest : String) (e : CustosEnvelope F) (geo : Option String) (key : Key)
        (x : Resolved D) (g : Gateway F D Key S)
        → Keeps g
        → Keeps (judge site m digest e geo key x g).1
    unfolding judge
    judge-Keeps m digest e geo key oracle_overflow g h = h
    judge-Keeps m digest e geo key (tenor_error c) g h = h
    judge-Keeps m digest e geo key (resolved claim observation) g h =
        let a = arguments_for site m e geo key claim observation g in
        let x = verify_intent site.platform a m.readings g.state in
        subst (λ (st : State F). P st.store) (sym (ap (λ c. c.0) (core-decide site m digest e x g)))
          (k.verified a m.readings g.state h)

    with_key-Keeps :
        (m : Moment) (digest : String) (e : CustosEnvelope F) (geo : Option String)
        (key : Option Key) (g : Gateway F D Key S)
        → Keeps g
        → Keeps (with_key site m digest e geo key g).1
    unfolding with_key
    with_key-Keeps m digest e geo none g h = h
    with_key-Keeps m digest e geo (some key) g h =
        let (x, g') = resolve_for site m e g in
        judge-Keeps m digest e geo key x g' (through g g' (resolve_for-oracle site m e g) h)

    post_intent-Keeps :
        (m : Moment) (e : CustosEnvelope F) (geo : Option String) (g : Gateway F D Key S)
        → Keeps g
        → Keeps (post_intent site m e geo g).1
    unfolding post_intent
    post_intent-Keeps m e geo g h =
        elim (Option-cases (envelope_hash site.platform site.sha256_hex e)) [
          | inl wild ↦ ground (arith, wild, h)
          | inr (digest, x) ↦
              let kept = with_key-Keeps m digest e geo (key_of e.agent.id g.agent_keys) g h in
              ground (arith, x, kept)
        ]

    administer-Keeps :
        (m : Moment) (q : AdminRequest) (g : Gateway F D Key S)
        → Fine q
        → Keeps g
        → Keeps (administer site m q g).1
    unfolding administer register_agent register_attestation_hash create_revocation
        delete_revocation
    administer-Keeps m (agent_registration agent text) g spared h =
        subst Keeps (sym (register_agent-register site site.b64_to_public_key agent text g)) h
    administer-Keeps m (framework_registration framework) g spared h = h
    administer-Keeps m (hash_registration q) g spared h = ground (arith, h)
    administer-Keeps m (revocation q) g spared h =
        elim (Option-cases (apply_action m q g.state.store)) [
          | inl e ↦ ground (arith, e, h)
          | inr (t, e) ↦
              let kept = k.acted m q g.state.store t spared e h in ground (arith, e, kept)
        ]
    administer-Keeps m (reinstatement other) g spared h =
        k.reinstated other m.synced_at g.state.store spared h
    administer-Keeps m demo_sync g spared h =
        subst (λ (st : State F). P st.store)
          (sym (ap (λ c. c.0) (core-sync_live_demo_claims site m g))) h

    guarded-Keeps :
        (m : Moment) (refusal : Option Refusal) (q : AdminRequest) (g : Gateway F D Key S)
        → FineIf Fine refusal q
        → Keeps g
        → Keeps (guarded site m refusal q g).1
    unfolding guarded
    guarded-Keeps m (some (refused_with n)) q g spared h = h
    guarded-Keeps m (some Refusal.type_error) q g spared h = h
    guarded-Keeps m none q g spared h = administer-Keeps m q g spared h

    handle-Keeps :
        (m : Moment) (q : Request F) (g : Gateway F D Key S)
        → IsFine Fine q
        → Keeps g
        → Keeps (handle site m q g).1
    unfolding handle health
    handle-Keeps m (admin_request presented q) g spared h =
        guarded-Keeps m (require_admin site.compare site.admin_api_key presented) q g spared h
    handle-Keeps m (intent_request e geo) g spared h = post_intent-Keeps m e geo g h
    handle-Keeps m (malformed detail) g spared h = h
    handle-Keeps m (trust_request agent) g spared h = h
    handle-Keeps m (asset_request asset_id) g spared h =
        through g (get_asset site m asset_id g).1 (get_asset-oracle site m asset_id g) h
    handle-Keeps m assets_request g spared h = h
    handle-Keeps m pubkey_request g spared h = h
    handle-Keeps m health_request g spared h = h

    pub handle_all-Keeps :
        (qs : List (Moment × Request F)) (g : Gateway F D Key S)
        → All (λ (x : Moment × Request F). IsFine Fine x.1) qs
        → Keeps g
        → Keeps (handle_all site qs g)
    unfolding handle_all
    handle_all-Keeps [] g spared h = h
    handle_all-Keeps ((m, q) ∷ qs) g spared h =
        handle_all-Keeps qs (handle site m q g).1 spared.1 (handle-Keeps m q g spared.0 h)
