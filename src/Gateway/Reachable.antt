-- ===== src/Gateway/Reachable.antt =====
-- The nonce cache of the server, over any run of requests.
use asset_embedding_protocol.Prelude.{
  ℕ, String, ◌≤◌, ◌≡◌, Option, none, some, List, [], ◌∷◌, length, All, arith, nat_eq, string_eq,
}
use asset_embedding_protocol.Number.{Float, Decimal}
use asset_embedding_protocol.Gateway.Serve.{
  admin_request, intent_request, malformed, trust_request, asset_request, assets_request,
  pubkey_request, health_request, AdminRequest, Request, handle_all,
}
use asset_embedding_protocol.Gateway.Site.{Site, Moment, Gateway}
use asset_embedding_protocol.Gateway.Admin.{apply_action, RevocationRequest}
use asset_embedding_protocol.Revocation.{reinstate, suspend, RevocationStore, revoke, suspend_until}
use asset_embedding_protocol.Gateway.Kept.{IsKept, IsFine, FineIf, handle_all-Keeps}
use asset_embedding_protocol.Verification.Bounded.{Bounded, verify_intent-Bounded}
use asset_embedding_protocol.Gateway.{require_admin, Refusal}

apply_action-Bounded :
    (m : Moment) (q : RevocationRequest) (s t : RevocationStore)
    → Unit {0}
    → apply_action m q s ≡ some t
    → Bounded s
    → Bounded t
unfolding apply_action suspend suspend_until revoke
apply_action-Bounded m q s t u e h = ground (arith, e, h)

reinstate-Bounded :
    (subject : String) (synced : ℕ) (s : RevocationStore)
    → Unit {0}
    → Bounded s
    → Bounded (reinstate subject synced s).1
unfolding reinstate
reinstate-Bounded subject synced s u h = h

module _ {F D Key PrivateKey S : Type 0} ⦃f : Float F⦄ ⦃d : Decimal D F⦄
    (site : Site F D Key PrivateKey S) where
  Bounded-IsKept : IsKept site Bounded (λ q. Unit)
  Bounded-IsKept = record {
    verified = λ a r st h. verify_intent-Bounded site.platform a r st h;
    acted = apply_action-Bounded;
    reinstated = reinstate-Bounded;
  }

  every-FineIf : (refusal : Option Refusal) (q : AdminRequest) → FineIf (λ x. Unit {0}) refusal q
  every-FineIf none q = tt
  every-FineIf (some n) q = tt

  request-IsFine : (q : Request F) → IsFine site (λ x. Unit) q
  request-IsFine (admin_request presented q) =
      every-FineIf (require_admin site.compare site.admin_api_key presented) q
  request-IsFine (intent_request e geo) = tt
  request-IsFine (malformed detail) = tt
  request-IsFine (trust_request agent) = tt
  request-IsFine (asset_request asset_id) = tt
  request-IsFine assets_request = tt
  request-IsFine pubkey_request = tt
  request-IsFine health_request = tt

  requests-IsFine :
      (qs : List (Moment × Request F))
      → All (λ (x : Moment × Request F). IsFine site (λ y. Unit) x.1) qs
  requests-IsFine [] = tt
  requests-IsFine (x ∷ qs) = (request-IsFine x.1, requests-IsFine qs)

  -- Whatever requests come, from whomever, the server's nonce cache never holds more nonces than its
  -- capacity, if it did not at first.
  pub handle_all-Bounded :
      (qs : List (Moment × Request F)) (g : Gateway F D Key S)
      → length g.state.store.nonces ≤ g.state.store.max_nonces
      → let g' = handle_all site qs g in length g'.state.store.nonces ≤ g'.state.store.max_nonces
  handle_all-Bounded qs g h = handle_all-Keeps site Bounded-IsKept qs g (requests-IsFine qs) h
