-- ===== src/Gateway/Sync.antt =====
-- gateway/server.py: the route that aligns the simulated claims of the demo with the market.
use asset_embedding_protocol.Prelude.{
  ℕ, String, none, some, List, [], ◌∷◌, map, ◌==◌, nat_eq, string_eq, if◌then◌else◌,
}
use asset_embedding_protocol.Prelude.Int.{ℤ, pos, sub_ℤ, max_ℤ}
use asset_embedding_protocol.Dict
use asset_embedding_protocol.Claims.{
  updated, no_such_claim, invalid_update, update_claim, list_claims,
}
use asset_embedding_protocol.Oracle.Treasury.{
  observed, no_observation, unsupported_tenor, overflow, get_observation,
}
use asset_embedding_protocol.Gateway.Site.{
  sync_error, synced, overflow_error, key_error, validation_error,
}
use asset_embedding_protocol.Number.{Float}
use asset_embedding_protocol.Gateway.Site.{
  Gateway, Site, Moment, Response, rendered, crashed, Crash,
}
use asset_embedding_protocol.Dict.{Dict}
use asset_embedding_protocol.Models.{Claim, Observation}
use asset_embedding_protocol.Errors.{oracle_unavailable, tenor_unsupported}

-- the observations of the tenors, or the answer that ends the route
pub data Collected (F D : Type 0) : Type 0 where
  collected : Dict Observation → Collected F D
  refused : Response F D → Collected F D

-- the claims that were updated, or an exception
pub data Aligned : Type 0 where
  aligned : List (String × ℕ) → Aligned
  broken : Crash → Aligned

-- updated.append(…) before the rest
abbrev pub and_aligned : String → ℕ → Aligned → Aligned
and_aligned asset_id yield_bps (aligned xs) = aligned ((asset_id, yield_bps) ∷ xs)
and_aligned asset_id yield_bps (broken e) = broken e

-- the yield that a claim is given
unfoldable pub demo_yield : (F : Type 0) ⦃f : Float F⦄ → String → ℤ → ℤ
demo_yield F ⦃f⦄ asset_id observed_bps =
    let share = f.to_int (f.round (f.mul (f.of_int observed_bps) (f.literal 4 2)) 0) in
    if asset_id == "TKN-UST-3M-003"
    then max_ℤ (pos 1) (sub_ℤ observed_bps (max_ℤ (pos 40) share))
    else observed_bps

module _ {F D Key PrivateKey S : Type 0} ⦃f : Float F⦄ (site : Site F D Key PrivateKey S) where
  -- the loop over the tenors
  unfoldable pub collect :
      Moment
      → List String
      → Dict Observation
      → Gateway F D Key S
      → Collected F D × Gateway F D Key S
  unfolding get_observation
  collect m [] found' g = (collected found', g)
  collect m (tenor ∷ tenors) found' g =
      let (sought, oracle) =
        get_observation site.reader site.client tenor (m.sync_clocks tenor) g.oracle in
      let g' : Gateway F D Key S = record g { oracle = oracle } in
      elim sought [
        | observed x ↦ collect m tenors (Dict.put tenor x found') g'
        | no_observation ↦ (refused (rendered 503 (sync_error oracle_unavailable)), g')
        | unsupported_tenor ↦ (refused (rendered 422 (sync_error tenor_unsupported)), g')
        | overflow ↦ (refused (crashed overflow_error), g')
      ]

-- the loop over the claims
unfoldable pub align :
    (F : Type 0) {D : Type 0} ⦃f : Float F⦄
    → Dict Observation
    → List (Claim D)
    → Dict (Claim D)
    → Aligned × Dict (Claim D)
unfolding update_claim demo_yield
align F found' [] claims = (aligned [], claims)
align F found' (c ∷ cs) claims = elim (Dict.get c.underlying_tenor found') [
  | none ↦ (broken key_error, claims)
  | some x ↦
      let (how, claims') =
        update_claim c.asset_id (demo_yield F c.asset_id x.observed_yield_bps) claims in
      let (rest, claims'') = align F found' cs claims' in
      elim how [
        | updated c' ↦ (and_aligned c'.asset_id c'.claimed_yield_bps rest, claims'')
        | no_such_claim ↦ (rest, claims'')
        | invalid_update ↦ (broken validation_error, claims')
      ]
]

module _ {F D Key PrivateKey S : Type 0} ⦃f : Float F⦄ (site : Site F D Key PrivateKey S) where
  -- the end of the route
  unfoldable pub align_collected :
      Collected F D → Gateway F D Key S → Response F D × Gateway F D Key S
  unfolding align list_claims
  align_collected (refused r) g = (r, g)
  align_collected (collected found') g =
      let (how, claims) = align F found' (list_claims g.claims) g.claims in
      let g' : Gateway F D Key S = record g { claims = claims } in
      elim how [ aligned xs ↦ (rendered 200 (synced found' xs), g') | broken e ↦ (crashed e, g') ]

  -- sync_live_demo_claims
  unfoldable pub sync_live_demo_claims :
      Moment → Gateway F D Key S → Response F D × Gateway F D Key S
  unfolding align_collected collect list_claims
  sync_live_demo_claims m g =
      let tenors =
        site.set_order (map (λ (c : Claim D). c.underlying_tenor) (list_claims g.claims)) in
      let (x, g') = collect site m tenors [] g in align_collected x g'
