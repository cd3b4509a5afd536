-- ===== src/Verification/Kept.antt =====
-- What every stage after the replay check keeps, those stages keep together.
use asset_embedding_protocol.Prelude.{Option, none, some, nat_eq, string_eq}
use asset_embedding_protocol.Number.{Float, Decimal}
use asset_embedding_protocol.Models.{Claim, RevocationCheck}
use asset_embedding_protocol.Canonical.{Platform}
use asset_embedding_protocol.Verification.Hoare.{Hoare, Hoare-bind, Hoare-pure, Hoare-if}
use asset_embedding_protocol.Pipeline.{
  is_tier_0, is_tier_1, effective_tier, reference_of, Arguments, Readings, Session, Step, Success,
  Exit, boundaries_stage, agent_stage, issuer_stage, fresh_stage, revocation_stage, asset_stage,
  attestation_stage, delegation_stage, trust_stage, pass, tier_1_stages, tier_2_stages,
  later_stages, pure,
}

module _ {F D Key : Type 0} ⦃f : Float F⦄ ⦃d : Decimal D F⦄ (lib : Platform F Key)
    (a : Arguments F D Key) (r : Readings) where
  pub record Kept (J : Session F → Type 0) (Q : Exit F → Session F → Type 0) : Type 0 where
    pub pass_kept : (step : Step) → Hoare J (pass step) (λ _. J) Q
    pub fresh : Hoare J (fresh_stage a r) (λ _. J) Q
    pub agent : Hoare J (agent_stage a r) (λ _. J) Q
    pub issuer : (c : Option (Claim D)) → Hoare J (issuer_stage a r c) (λ _. J) Q
    pub asset : Hoare J (asset_stage a r) (λ _. J) Q
    pub attestation : Hoare J (attestation_stage a r) (λ _. J) Q
    pub delegation : Hoare J (delegation_stage a r) (λ _. J) Q
    pub trust : Hoare J (trust_stage a r) (λ _. J) Q

  module _ {J : Session F → Type 0} {Q : Exit F → Session F → Type 0} (k : Kept J Q) where
    pub tier_2_kept : (x : Success F) → Hoare J (tier_2_stages lib a r x) (λ _. J) Q
    unfolding tier_2_stages
    tier_2_kept x = Hoare-bind _ _ k.delegation (λ _. Hoare-bind _ _ k.trust (λ _. Hoare-pure x))

    pub tier_1_kept : (c : RevocationCheck F) → Hoare J (tier_1_stages lib a r c) (λ _. J) Q
    unfolding tier_1_stages
    tier_1_kept c = Hoare-bind _ _ k.asset (λ scores. Hoare-bind _ _ k.attestation (λ _.
        let x : Success F = record {
          scores = some scores;
          reference = reference_of a r;
          revocation = c;
        } in
        Hoare-if (is_tier_1 (effective_tier a.envelope.verification_tier)) (pure x)
          (tier_2_stages lib a r x) (λ _. Hoare-pure x) (λ _. tier_2_kept x)))

    pub revocation_kept : Hoare J (revocation_stage a r) (λ _. J) Q
    unfolding revocation_stage
    revocation_kept = Hoare-bind _ _ k.fresh (λ c. Hoare-bind _ _ k.agent (λ _.
        Hoare-bind _ _ (k.issuer a.claim)
          (λ _. Hoare-bind _ _ (k.pass_kept Step.revocation) (λ _. Hoare-pure c))))

    pub later_kept :
        {P : Session F → Type 0}
        → Hoare P (boundaries_stage a r) (λ _. J) Q
        → Hoare P (later_stages lib a r) (λ _. J) Q
    unfolding later_stages
    later_kept b = Hoare-bind _ _ b (λ _. Hoare-bind _ _ revocation_kept (λ c.
        let x : Success F = record { scores = none; reference = none; revocation = c } in
        Hoare-if (is_tier_0 (effective_tier a.envelope.verification_tier)) (pure x)
          (tier_1_stages lib a r c) (λ _. Hoare-pure x) (λ _. tier_1_kept c)))
