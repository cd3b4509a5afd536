-- ===== src/Shield/Unresolved.antt =====
-- A protected callable that moves value without a source of claims.
use asset_embedding_protocol.Prelude.{
  ℕ, String, ◌≡◌, ◌≢◌, sym, ◌∙◌, subst, true, false, Option, none, some, inl, inr, Option-cases,
  arith, nat_eq, string_eq,
}
use asset_embedding_protocol.Number.{Float, Decimal}
use asset_embedding_protocol.Dict
use asset_embedding_protocol.Dict.{Dict}
use asset_embedding_protocol.Shield.{
  ran, prepared, resolution, Protection, Instant, CallArguments, Surroundings, build_parameters,
  call_target,
}
use asset_embedding_protocol.Shield.Verify.{
  resolve_target, prepare_for, prepare, shield_arguments, protected_call,
}
use asset_embedding_protocol.Models.{
  Claim, Observation, CustosEnvelope, Value, AssetScores, VerificationTier,
}
use asset_embedding_protocol.Envelope.{
  select_tier, create_envelope, sign_envelope, draft, value_moving,
}
use asset_embedding_protocol.Pipeline.{effective_tier, tier_order, is_tier_0}
use asset_embedding_protocol.Canonical.{signable_payload}
use asset_embedding_protocol.Drift.{DriftConfig, check_asset_truth, scored, default_drift_config}
use asset_embedding_protocol.Shield.Gate.{protected_call-IsGuarded}
use asset_embedding_protocol.Drift.Plausible.{fails_closed}

module _ {F D Key PrivateKey W : Type 0} ⦃f : Float F⦄ ⦃d : Decimal D F⦄
    (p : Protection F D Key PrivateKey W) where
  created_tier :
      (target : String) (parameters : Dict (Value F)) (i : Instant) (e : CustosEnvelope F)
      → p.tier ≡ none
      → create_envelope p.passport p.action target parameters p.tier 300 i.created_at i.hex ≡ some e
      → some e.verification_tier ≡ select_tier p.action parameters p.passport.boundaries false false
  unfolding create_envelope draft
  created_tier target parameters i e untiered h = ground (arith, untiered, h)

  signed_tier :
      (e signed : CustosEnvelope F) (key : PrivateKey) (at : ℕ)
      → sign_envelope p.platform p.signing e key "" at ≡ some signed
      → signed.verification_tier ≡ e.verification_tier
  unfolding sign_envelope
  signed_tier e signed key at h = elim (Option-cases (signable_payload p.platform e)) [
    | inl wild ↦ absurd (ground (arith, wild, h))
    | inr (payload, x) ↦ ground (arith, x, h)
  ]

  select_tier_above :
      (parameters : Dict (Value F)) (tier : VerificationTier)
      → value_moving p.action ≡ true
      → some tier ≡ select_tier p.action parameters p.passport.boundaries false false
      → is_tier_0 (effective_tier tier) ≡ false
  unfolding select_tier effective_tier tier_order
  select_tier_above parameters tier moving chosen = ground (arith, moving, chosen)

  prepare_for_above :
      (i : Instant) (target t : String) (parameters : Dict (Value F)) (signed : CustosEnvelope F)
      → p.tier ≡ none
      → value_moving p.action ≡ true
      → prepare_for p i target parameters ≡ prepared t signed
      → is_tier_0 (effective_tier signed.verification_tier) ≡ false
  unfolding prepare_for
  prepare_for_above i target t parameters signed untiered moving h =
      elim (Option-cases
        (create_envelope p.passport p.action target parameters p.tier 300 i.created_at i.hex)) [
          | inl x ↦ absurd (ground (arith, x, h))
          | inr (e, x) ↦ elim (Option-cases p.passport.private_key) [
            | inl y ↦ absurd (ground (arith, x, y, h))
            | inr (key, y) ↦
                elim (Option-cases (sign_envelope p.platform p.signing e key "" i.signed_at)) [
                  | inl z ↦ absurd (ground (arith, x, y, z, h))
                  | inr (e', z) ↦
                      let same : signed.verification_tier ≡ e'.verification_tier =
                        ground (arith, x, y, z, h) in
                      subst (λ v. is_tier_0 (effective_tier v) ≡ false)
                        (sym (same ∙ signed_tier e e' key i.signed_at z))
                        (select_tier_above parameters e.verification_tier moving
                          (created_tier target parameters i e untiered x))
                ]
          ]
        ]

  prepare_above :
      (i : Instant) (a : CallArguments F) (t : String) (signed : CustosEnvelope F)
      → p.tier ≡ none
      → value_moving p.action ≡ true
      → prepare p i a ≡ prepared t signed
      → is_tier_0 (effective_tier signed.verification_tier) ≡ false
  unfolding prepare
  prepare_above i a t signed untiered moving h =
      let parameters = build_parameters a in
      elim (Option-cases (call_target (Dict.get "target" parameters) p.target)) [
        | inl x ↦ absurd (ground (arith, x, h))
        | inr (target, x) ↦
            prepare_for_above i target t (Dict.remove "target" parameters) signed untiered moving
              (ground (arith, x, h))
      ]

  no_claim :
      (target : String) (w : W) (claim : Option (Claim D)) (observation : Option Observation)
      → p.claim_resolver ≡ none
      → (resolve_target p target w).0 ≡ resolution claim observation
      → claim ≡ none
  unfolding resolve_target
  no_claim target w claim observation absent h = ground (arith, absent, h)

  unscored :
      (claim : Option (Claim D)) (observation : Option Observation) (config : DriftConfig F)
      (now : ℕ) (x : AssetScores F)
      → claim ≡ none
      → check_asset_truth claim observation config now ≢ scored x
  unscored claim observation config now x absent h =
      let failed = (fails_closed claim observation config now).0.1 absent in
      absurd (ground (arith, failed, h))

  -- A protected callable whose action moves value, with no tier chosen and no claim resolver, never runs:
  -- its envelope is made for tier 1 or above, and without a claim the asset check refuses it.
  pub unresolved_never_runs :
      {R : Type 0} (func : W → Option R × W) (i : Instant) (a : CallArguments F)
      (s : Surroundings F W) (y : Option R)
      → p.claim_resolver ≡ none
      → p.tier ≡ none
      → value_moving p.action ≡ true
      → (protected_call p func i a s).0 ≢ ran y
  unfolding shield_arguments
  unresolved_never_runs func i a s y absent untiered moving h =
      let ok = (protected_call-IsGuarded p func i a s y h).1 in
      let above = prepare_above i a ok.target ok.signed untiered moving ok.made in
      let (scores, deep) = ok.met.deep above in
      unscored ok.claim ok.observation default_drift_config i.verified_at scores
        (no_claim ok.target s.world ok.claim ok.observation absent ok.looked_up) deep.truth
