-- ===== src/Gateway/Revoked.antt =====
-- What a revocation by the administrator means for the intents that follow.
use asset_embedding_protocol.Prelude.{
  String, ◌≡◌, Bool, false, Option, none, some, List, [], ◌∷◌, inl, inr, Bool-cases, arith, nat_eq,
  string_eq, All, subst,
}
use asset_embedding_protocol.Number.{Float, Decimal}
use asset_embedding_protocol.Gateway.Serve.{
  admin_request, intent_request, malformed, trust_request, asset_request, assets_request,
  pubkey_request, health_request, revocation, AdminRequest, handle_all, guarded, handle, Request,
  administer,
}
use asset_embedding_protocol.Gateway.Site.{Site, Moment, Gateway}
use asset_embedding_protocol.Gateway.Barred.{lifts, Bars, apply_action-revokes, Banned-IsKept}
use asset_embedding_protocol.Models.{CustosEnvelope}
use asset_embedding_protocol.Gateway.Admin.{RevocationRequest, create_revocation}
use asset_embedding_protocol.Gateway.{require_admin, Refusal}
use asset_embedding_protocol.Gateway.Allowed.{grants, post_intent-IsAllowed}
use asset_embedding_protocol.Gateway.Intent.Route.{post_intent, arguments_for}
use asset_embedding_protocol.Verification.Permanent.{is_revoked-Banned}
use asset_embedding_protocol.Revocation.{is_revoked}
use asset_embedding_protocol.Gateway.Kept.{IsFine, FineIf, handle_all-Keeps}

-- Does a request lift a subject's ban, with a credential that is accepted?
abbrev lifts_if : Option Refusal → String → AdminRequest → Bool
lifts_if (some refusal) subject q = false
lifts_if none subject q = lifts subject q

unfoldable pub is_lifting :
    {F D Key PrivateKey S : Type 0} → Site F D Key PrivateKey S → String → Request F → Bool
is_lifting site subject (admin_request presented q) =
    lifts_if (require_admin site.compare site.admin_api_key presented) subject q
is_lifting site subject q = false

module _ {F D Key PrivateKey S : Type 0} ⦃f : Float F⦄ ⦃d : Decimal D F⦄
    (site : Site F D Key PrivateKey S) (subject : String) where
  lifts-FineIf :
      (refusal : Option Refusal) (q : AdminRequest)
      → lifts_if refusal subject q ≡ false
      → FineIf (λ x. lifts subject x ≡ false) refusal q
  lifts-FineIf (some why) q h = tt
  lifts-FineIf none q h = h

  request-IsFine :
      (q : Request F)
      → is_lifting site subject q ≡ false
      → IsFine site (λ x. lifts subject x ≡ false) q
  unfolding is_lifting
  request-IsFine (admin_request presented q) h =
      lifts-FineIf (require_admin site.compare site.admin_api_key presented) q h
  request-IsFine (intent_request e geo) h = tt
  request-IsFine (malformed detail) h = tt
  request-IsFine (trust_request agent) h = tt
  request-IsFine (asset_request asset_id) h = tt
  request-IsFine assets_request h = tt
  request-IsFine pubkey_request h = tt
  request-IsFine health_request h = tt

  requests-IsFine :
      (qs : List (Moment × Request F))
      → All (λ (x : Moment × Request F). is_lifting site subject x.1 ≡ false) qs
      → All (λ (x : Moment × Request F). IsFine site (λ y. lifts subject y ≡ false) x.1) qs
  requests-IsFine [] h = tt
  requests-IsFine (x ∷ qs) h = (request-IsFine x.1 h.0, requests-IsFine qs h.1)

  handle_all-Bars :
      (qs : List (Moment × Request F)) (g : Gateway F D Key S)
      → All (λ (x : Moment × Request F). is_lifting site subject x.1 ≡ false) qs
      → Bars subject g
      → Bars subject (handle_all site qs g)
  handle_all-Bars qs g spared h =
      handle_all-Keeps site (Banned-IsKept site subject) qs g (requests-IsFine qs spared) h

module _ {F D Key PrivateKey S : Type 0} ⦃f : Float F⦄ ⦃d : Decimal D F⦄
    (site : Site F D Key PrivateKey S) where
  barred_refused :
      (m : Moment) (e : CustosEnvelope F) (geo : Option String) (g : Gateway F D Key S)
      → Bars e.agent.id g
      → grants (post_intent site m e geo g).0 ≡ false
  unfolding arguments_for
  barred_refused m e geo g h = elim (Bool-cases (grants (post_intent site m e geo g).0)) [
    | inr declined ↦ declined
    | inl granted ↦
        let ok = post_intent-IsAllowed site m e geo g granted in
        let free : (is_revoked e.agent.id m.readings.agent_revoked_at g.state.store).0 ≡ false =
          ok.cleared.agent_free in
        let banned = is_revoked-Banned e.agent.id m.readings.agent_revoked_at g.state.store h in
        absurd (ground (arith, free, banned))
  ]

  revokes :
      (m : Moment) (presented : Option String) (q : RevocationRequest) (g : Gateway F D Key S)
      → require_admin site.compare site.admin_api_key presented ≡ none
      → q.action ≡ "revoke"
      → Bars q.subject_id (handle site m (admin_request presented (revocation q)) g).1
  unfolding handle guarded administer create_revocation
  revokes m presented q g admitted act =
      let (t, e, banned) = apply_action-revokes m q g.state.store act in
      ground (arith, admitted, e, banned)

  -- Once the server has taken an administrator's request to revoke an agent, it grants that agent's
  -- intents no attestation, after any run of requests of anyone, none of which an accepted administrator
  -- makes to suspend or to reinstate that agent.
  pub revoked_never_granted :
      (m m' : Moment) (presented : Option String) (q : RevocationRequest)
      (qs : List (Moment × Request F)) (e : CustosEnvelope F) (geo : Option String)
      (g : Gateway F D Key S)
      → require_admin site.compare site.admin_api_key presented ≡ none
      → q.action ≡ "revoke"
      → q.subject_id ≡ e.agent.id
      → All (λ (x : Moment × Request F). is_lifting site q.subject_id x.1 ≡ false) qs
      → let revoked = (handle site m (admin_request presented (revocation q)) g).1 in
        grants (handle site m' (intent_request e geo) (handle_all site qs revoked)).0 ≡ false
  unfolding handle
  revoked_never_granted m m' presented q qs e geo g admitted act same spared =
      let revoked = (handle site m (admin_request presented (revocation q)) g).1 in
      let barred =
        handle_all-Bars site q.subject_id qs revoked spared
          (revokes m presented q g admitted act) in
      barred_refused m' e geo (handle_all site qs revoked)
        (subst (λ (x : String). Bars x (handle_all site qs revoked)) same barred)
