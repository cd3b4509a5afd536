-- ===== src/Gateway/Frames.antt =====
-- What the routes of the server leave alone.
use asset_embedding_protocol.Prelude.{
  ℕ, String, ◌≡◌, refl, Option, none, some, List, [], ◌∷◌, inl, inr, Option-cases, Bool-cases,
  arith, nat_eq, string_eq, ◌∙◌, ◌⊎◌, map,
}
use asset_embedding_protocol.Number.{Float, Decimal}
use asset_embedding_protocol.Dict
use asset_embedding_protocol.Oracle.Treasury.{
  Sought, observed, no_observation, unsupported_tenor, overflow, TreasuryOracle, get_observation,
}
use asset_embedding_protocol.Gateway.Site.{Site, Gateway, Moment, Crash}
use asset_embedding_protocol.Gateway.Intent.{downstream_of}
use asset_embedding_protocol.Gateway.Intent.Route.{resolve_for, decide, deliver, resolve, forward}
use asset_embedding_protocol.Models.{Observation, Claim, CustosEnvelope}
use asset_embedding_protocol.Gateway.Serve.{get_asset}
use asset_embedding_protocol.Gateway.Sync.{
  collect, sync_live_demo_claims, align_collected, Collected, refused, collected, Aligned, align,
  aligned, broken,
}
use asset_embedding_protocol.Pipeline.{State, is_tier_0, Outcome, raised, returned}
use asset_embedding_protocol.Dict.{Dict}
use asset_embedding_protocol.Attestation.{VerdictRecord}
use asset_embedding_protocol.Gateway.{AttestationRegistry, register}
use asset_embedding_protocol.Claims.{get_claim, list_claims}
use asset_embedding_protocol.Verification.Unauthenticated.{state_of}
use asset_embedding_protocol.Gateway.Admin.{register_agent}

Sought-cases :
    (x : Sought)
    → ((o : Observation) × (x ≡ observed o))
      ⊎ (x ≡ no_observation)
      ⊎ (x ≡ unsupported_tenor)
      ⊎ (x ≡ overflow)
Sought-cases (observed o) = inl (o, refl)
Sought-cases no_observation = inr (inl refl)
Sought-cases unsupported_tenor = inr (inr (inl refl))
Sought-cases overflow = inr (inr (inr refl))

Aligned-cases :
    (x : Aligned) → ((xs : List (String × ℕ)) × (x ≡ aligned xs)) ⊎ ((e : Crash) × (x ≡ broken e))
Aligned-cases (aligned xs) = inl (xs, refl)
Aligned-cases (broken e) = inr (e, refl)

module _ {F D Key PrivateKey S : Type 0} ⦃f : Float F⦄ ⦃d : Decimal D F⦄
    (site : Site F D Key PrivateKey S) where
  -- The gateway with another state of the oracle.
  pub resolve-oracle :
      (m : Moment) (target : String) (g : Gateway F D Key S)
      → (o : TreasuryOracle S) × ((resolve site m target g).1 ≡ record g { oracle = o })
  unfolding resolve
  resolve-oracle m target g = elim (Option-cases (get_claim target g.claims)) [
    | inl e ↦ (g.oracle, ground (arith, e))
    | inr (c, e) ↦ (
      (get_observation site.reader site.client c.underlying_tenor m.oracle g.oracle).1,
      ground (arith, e),
    )
  ]

  pub resolve_for-oracle :
      (m : Moment) (e : CustosEnvelope F) (g : Gateway F D Key S)
      → (o : TreasuryOracle S) × ((resolve_for site m e g).1 ≡ record g { oracle = o })
  unfolding resolve_for
  resolve_for-oracle m e g = elim (Bool-cases (is_tier_0 e.verification_tier)) [
    | inl h ↦ (g.oracle, ground (arith, h))
    | inr h ↦ let (o, same) = resolve-oracle m e.intent.target g in (o, ground (arith, h, same))
  ]

  pub get_asset-oracle :
      (m : Moment) (asset_id : String) (g : Gateway F D Key S)
      → (o : TreasuryOracle S) × ((get_asset site m asset_id g).1 ≡ record g { oracle = o })
  unfolding get_asset
  get_asset-oracle m asset_id g = elim (Option-cases (get_claim asset_id g.claims)) [
    | inl e ↦ (g.oracle, ground (arith, e))
    | inr (c, e) ↦ (
      (get_observation site.reader site.client c.underlying_tenor m.oracle g.oracle).1,
      ground (arith, e),
    )
  ]

  -- What a request leaves in the gateway besides the oracle and the claims.
  abbrev pub core : Gateway F D Key S → State F × Dict Key × AttestationRegistry
  core g = (g.state, g.agent_keys, g.attestations)

  core-collect :
      (m : Moment) (tenors : List String) (found' : Dict Observation) (g : Gateway F D Key S)
      → core (collect site m tenors found' g).1 ≡ core g
  unfolding collect
  core-collect m [] found' g = refl
  core-collect m (tenor ∷ tenors) found' g =
      let (sought, o) =
        get_observation site.reader site.client tenor (m.sync_clocks tenor) g.oracle in
      elim (Sought-cases sought) [
        | inl (x, e) ↦
            ground
              (arith, e, core-collect m tenors (Dict.put tenor x found') (record g { oracle = o }))
        | inr (inl e) ↦ ground (arith, e)
        | inr (inr (inl e)) ↦ ground (arith, e)
        | inr (inr (inr e)) ↦ ground (arith, e)
      ]

  core-align_collected :
      (x : Collected F D) (g : Gateway F D Key S) → core (align_collected site x g).1 ≡ core g
  unfolding align_collected
  core-align_collected (refused r) g = refl
  core-align_collected (collected found') g =
      let (how, claims) = align F found' (list_claims g.claims) g.claims in
      elim (Aligned-cases how) [ inl (xs, e) ↦ ground (arith, e) | inr (x, e) ↦ ground (arith, e) ]

  pub core-sync_live_demo_claims :
      (m : Moment) (g : Gateway F D Key S) → core (sync_live_demo_claims site m g).1 ≡ core g
  unfolding sync_live_demo_claims
  core-sync_live_demo_claims m g =
      let tenors =
        site.set_order (map (λ (c : Claim D). c.underlying_tenor) (list_claims g.claims)) in
      let (x, g') = collect site m tenors [] g in
      core-align_collected x g' ∙ core-collect m tenors [] g

  core-deliver :
      (e : CustosEnvelope F) (x : Option (VerdictRecord F)) (g : Gateway F D Key S)
      → core (deliver site e x g).1 ≡ core g
  unfolding deliver forward
  core-deliver e none g = refl
  core-deliver e (some r) g =
      elim (Option-cases (downstream_of (Dict.get "downstream" e.intent.parameters))) [
        | inl absent ↦ ground (arith, absent)
        | inr (url, given) ↦ ground (arith, given)
      ]

  -- `decide` leaves the state that the verification left.
  pub core-decide :
      (m : Moment) (digest : String) (e : CustosEnvelope F) (x : Outcome F) (g : Gateway F D Key S)
      → core (decide site m digest e x g).1 ≡ core (record g { state = state_of x })
  unfolding decide
  core-decide m digest e (raised why st) g = refl
  core-decide m digest e (returned x st) g = elim (Bool-cases x.passed) [
    | inl ok ↦ rw (ok, decide) (core-deliver e _ (record g { state = st }))
    | inr bad ↦ ground (arith, bad)
  ]

  -- A registration of a key changes the keys alone, as the registry's `register` does.
  pub register_agent-register :
      (decode : String → Option Key) (agent text : String) (g : Gateway F D Key S)
      → (register_agent decode agent text g).1
        ≡ record g { agent_keys = (register decode agent text g.agent_keys).1 }
  unfolding register_agent register
  register_agent-register decode agent text g = elim (Option-cases (decode text)) [
    | inl e ↦ ground (arith, e)
    | inr (k, e) ↦ elim (Option-cases (Dict.get agent g.agent_keys)) [
      | inl new ↦ ground (arith, e, new)
      | inr (held, x) ↦ ground (arith, e, x)
    ]
  ]
