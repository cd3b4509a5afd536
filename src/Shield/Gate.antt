-- ===== src/Shield/Gate.antt =====
-- When a protected callable runs.
use asset_embedding_protocol.Prelude.{
  String, ◌≡◌, refl, true, Option, inl, inr, Bool-cases, arith, nat_eq, string_eq, contains,
}
use asset_embedding_protocol.Number.{Float, Decimal}
use asset_embedding_protocol.Shield.{
  cleared, blocked, refused, ran, prepared, unprepared, resolution, resolver_error,
}
use asset_embedding_protocol.Shield.Verify.{shield_arguments, state_for}
use asset_embedding_protocol.Pipeline.{returned, raised, Outcome, VerificationResult, verify_intent}
use asset_embedding_protocol.Shield.{
  Protection, Instant, Verified, CallArguments, Surroundings, Resolution, Prepared, ran,
  valid_on_violation, cleared, resolution, refused, unprepared, prepared,
}
use asset_embedding_protocol.Shield.Verify.{
  verify_prepared, protected_call, react, verify_resolved, proceed_with, verify_call, prepare,
  resolve_target, shield_arguments,
}
use asset_embedding_protocol.Models.{CustosEnvelope, Claim, Observation}
use asset_embedding_protocol.Verification.Unauthenticated.{has_passed}
use asset_embedding_protocol.Verification.Sound.{IsCleared, pass-IsCleared}

module _ {F D Key PrivateKey W : Type 0} ⦃f : Float F⦄ ⦃d : Decimal D F⦄
    (p : Protection F D Key PrivateKey W) where
  -- What a call must have met for its callable to run.
  pub record IsGuarded (i : Instant) (a : CallArguments F) (s : Surroundings F W) : Type 0 where
    pub target : String
    pub signed : CustosEnvelope F
    pub claim : Option (Claim D)
    pub observation : Option Observation
    pub made : prepare p i a ≡ prepared target signed
    pub looked_up : (resolve_target p target s.world).0 ≡ resolution claim observation
    pub met :
        IsCleared p.platform
          (shield_arguments p i signed claim observation)
          i.readings
          (state_for p i s)

  proceed_with_ran :
      {R : Type 0} (func : W → Option R × W) (x : Verified F) (s : Surroundings F W) (y : Option R)
      → (proceed_with p func x s).0 ≡ ran y
      → (z : VerificationResult F) × (x ≡ cleared z)
  unfolding proceed_with
  proceed_with_ran func (cleared z) s y h = (z, refl)
  proceed_with_ran func blocked s y h = absurd (ground (arith, h))
  proceed_with_ran func (refused e) s y h = absurd (ground (arith, h))

  react_cleared :
      (x : Outcome F) (s : Surroundings F W) (z : VerificationResult F)
      → (react p x s).0 ≡ cleared z
      → has_passed x ≡ true
  unfolding react
  react_cleared (raised why st) s z h = absurd (ground (arith, h))
  react_cleared (returned x st) s z h = ground (arith, h)

  verify_resolved_cleared :
      (i : Instant) (signed : CustosEnvelope F) (x : Resolution D) (s : Surroundings F W)
      (z : VerificationResult F)
      → (verify_resolved p i signed x s).0 ≡ cleared z
      → (claim : Option (Claim D)) × (observation : Option Observation) × (x
          ≡ resolution claim observation)
        × IsCleared p.platform
            (shield_arguments p i signed claim observation)
            i.readings
            (state_for p i s)
  unfolding verify_resolved
  verify_resolved_cleared i signed resolver_error s z h = absurd (ground (arith, h))
  verify_resolved_cleared i signed (resolution claim observation) s z h =
      let a = shield_arguments p i signed claim observation in
      let x = verify_intent p.platform a i.readings (state_for p i s) in
      (
        claim,
        observation,
        refl,
        pass-IsCleared p.platform a i.readings (state_for p i s) (react_cleared x s z h),
      )

  verify_prepared_cleared :
      (i : Instant) (a : CallArguments F) (x : Prepared F) (s : Surroundings F W)
      (z : VerificationResult F)
      → prepare p i a ≡ x
      → (verify_prepared p i x s).0 ≡ cleared z
      → IsGuarded i a s
  unfolding verify_prepared
  verify_prepared_cleared i a (unprepared e) s z k h = absurd (ground (arith, h))
  verify_prepared_cleared i a (prepared target signed) s z k h =
      let (x, w) = resolve_target p target s.world in
      let (claim, observation, found, met) =
        verify_resolved_cleared i signed x (record s { world = w }) z h in
      record {
        target = target;
        signed = signed;
        claim = claim;
        observation = observation;
        made = k;
        looked_up = found;
        met = met;
      }

  -- A protected callable runs only if `on_violation` is one of the three words and the call was cleared:
  -- the envelope that the passport's own key signed for the call's target and parameters meets every
  -- condition of `IsCleared`, with the claim and the observation that the resolvers gave, on the store
  -- and the engine given, or on new ones.
  pub protected_call-IsGuarded :
      {R : Type 0} (func : W → Option R × W) (i : Instant) (a : CallArguments F)
      (s : Surroundings F W) (y : Option R)
      → (protected_call p func i a s).0 ≡ ran y
      → (contains p.on_violation valid_on_violation ≡ true) × IsGuarded i a s
  unfolding protected_call verify_call
  protected_call-IsGuarded func i a s y h =
      let (x, s') = verify_call p i a s in
      let (z, e) = proceed_with_ran func x s' y h in
      elim (Bool-cases (contains p.on_violation valid_on_violation)) [
        | inl valid ↦
            (valid, verify_prepared_cleared i a (prepare p i a) s z refl (ground (arith, valid, e)))
        | inr invalid ↦ absurd (ground (arith, invalid, e))
      ]
