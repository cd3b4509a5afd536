-- ===== src/Verification/Coded.antt =====
-- A result of `verify_intent` names an error exactly if it did not pass.
use asset_embedding_protocol.Prelude.{
  ◌≡◌, ◌↔◌, true, Option, none, some, [], is_nonempty, arith, nat_eq, string_eq, refl, Bool,
}
use asset_embedding_protocol.Number.{Float, Decimal}
use asset_embedding_protocol.Models.{Claim}
use asset_embedding_protocol.Canonical.{Platform}
use asset_embedding_protocol.Drift.{AssetTruth, scored, failure}
use asset_embedding_protocol.Verification.Hoare.{Hoare, Hoare-intro, Hoare-bind, Post}
use asset_embedding_protocol.Verification.Kept.{Kept, later_kept}
use asset_embedding_protocol.Verification.Unauthenticated.{result_of}
use asset_embedding_protocol.Pipeline.{
  non_finite, Arguments, Readings, Session, Failure, Exit, stop, escape, amount_stage, Progress, go,
  leave, Success, nonce_stage, replay_stage, reserve_stage, boundaries_stage, judge_stage,
  agent_stage, issuer_stage, fresh_stage, settle, asset_stage, attestation_stage, delegation_stage,
  trust_stage, pass, plain, require, stages, conclude, succeed, fail_authenticated, fail,
  VerificationResult, Stage, admission, resume, finish, verify_intent, State, Admission,
  check_signature, rejected, Checks, admitted, authenticated,
}

module _ {F D Key : Type 0} ⦃f : Float F⦄ ⦃d : Decimal D F⦄ (lib : Platform F Key)
    (a : Arguments F D Key) (r : Readings) where
  abbrev Any : Session F → Type 0
  Any s = Unit

  -- a failure names a code
  abbrev is_coded : Exit F → Bool
  is_coded (stop x) = is_nonempty x.codes
  is_coded (escape e) = true

  abbrev IsCoded : Exit F → Session F → Type 0
  IsCoded x s = is_coded x ≡ true

  coded :
      {A : Type 0} (m : Stage F A)
      → ((s : Session F) (x : Exit F) → (m s).0 ≡ leave x → is_coded x ≡ true)
      → Hoare Any m (λ _. Any) IsCoded
  coded m h = Hoare-intro (λ _ _ _ _. tt) (λ s _ x e. h s x e)

  issuer-IsCoded :
      (c : Option (Claim D)) (s : Session F) (x : Exit F)
      → (issuer_stage a r c s).0 ≡ leave x
      → is_coded x ≡ true
  unfolding issuer_stage plain
  issuer-IsCoded none s x e = absurd (ground (arith, e))
  issuer-IsCoded (some c) s x e = ground (arith, e)

  asset-IsCoded :
      (t : AssetTruth F) (s : Session F) (x : Exit F)
      → (settle a r t s).0 ≡ leave x
      → is_coded x ≡ true
  unfolding settle pass
  asset-IsCoded (scored y) s x e = absurd (ground (arith, e))
  asset-IsCoded (failure y) s x e = ground (arith, e)

  reserve-IsCoded :
      (amount : Option F) (s : Session F) (x : Exit F)
      → (reserve_stage a r amount s).0 ≡ leave x
      → is_coded x ≡ true
  unfolding reserve_stage
  reserve-IsCoded none s x e = absurd (ground (arith, e))
  reserve-IsCoded (some y) s x e = absurd (ground (arith, e))

  all-IsCoded : Kept lib a r Any IsCoded
  unfolding pass plain require fresh_stage agent_stage asset_stage attestation_stage
      delegation_stage trust_stage
  all-IsCoded = record {
    pass_kept = λ step. coded (pass step) (λ s x e. absurd (ground (arith, e)));
    fresh = coded (fresh_stage a r) (λ s x e. ground (arith, e));
    agent = coded (agent_stage a r) (λ s x e. ground (arith, e));
    issuer = λ c. coded (issuer_stage a r c) (issuer-IsCoded c);
    asset = coded (asset_stage a r) (asset-IsCoded _);
    attestation = coded (attestation_stage a r) (λ s x e. ground (arith, e));
    delegation = coded (delegation_stage a r) (λ s x e. ground (arith, e));
    trust = coded (trust_stage a r) (λ s x e. ground (arith, e));
  }

  nonce-IsCoded : (s : Session F) (x : Exit F) → (nonce_stage a r s).0 ≡ leave x → is_coded x ≡ true
  unfolding nonce_stage require plain pass
  nonce-IsCoded s x e = ground (arith, e)

  replay-IsCoded :
      (s : Session F) (x : Exit F) → (replay_stage a r s).0 ≡ leave x → is_coded x ≡ true
  unfolding replay_stage require plain pass
  replay-IsCoded s x e = ground (arith, e)

  amount-IsCoded :
      (s : Session F) (x : Exit F) → (amount_stage a r s).0 ≡ leave x → is_coded x ≡ true
  unfolding amount_stage
  amount-IsCoded s x e = ground (arith, e)

  judge-IsCoded :
      (before : F) (s : Session F) (x : Exit F)
      → (judge_stage a r before s).0 ≡ leave x
      → is_coded x ≡ true
  unfolding judge_stage plain pass
  judge-IsCoded before s x e = ground (arith, e)

  stages-IsCoded : Hoare Any (stages lib a r) (λ _. Any) IsCoded
  unfolding stages boundaries_stage
  stages-IsCoded = Hoare-bind _ _ (coded (nonce_stage a r) nonce-IsCoded) (λ _.
      Hoare-bind _ _ (coded (replay_stage a r) replay-IsCoded) (λ _.
        later_kept lib a r all-IsCoded (
          Hoare-bind _ _ (coded (amount_stage a r) amount-IsCoded) (λ amount.
            Hoare-bind _ _ (coded (reserve_stage a r amount) (reserve-IsCoded amount))
              (λ before. coded (judge_stage a r before) (judge-IsCoded before))))))

  conclude-IsCoded :
      (p : Progress F (Success F)) (s : Session F) (y : VerificationResult F)
      → Post (λ _. Any) IsCoded p s
      → result_of (conclude lib a r p s) ≡ some y
      → (y.passed ≡ true) ↔ (y.errors ≡ [])
  unfolding conclude succeed fail_authenticated fail
  conclude-IsCoded (go x) s y h e = (λ _. ground (arith, e), λ _. ground (arith, e))
  conclude-IsCoded (leave (escape x)) s y h e = absurd (ground (arith, e))
  conclude-IsCoded (leave (stop x)) s y h e =
      (λ p. absurd (ground (arith, e, p)), λ p. absurd (ground (arith, e, h, p)))

  finish-IsCoded :
      (s : Session F) (y : VerificationResult F)
      → result_of (finish lib a r s) ≡ some y
      → (y.passed ≡ true) ↔ (y.errors ≡ [])
  unfolding finish
  finish-IsCoded s y e =
      conclude-IsCoded (stages lib a r s).0 (stages lib a r s).1 y (stages-IsCoded.at s tt) e

  rejected-IsCoded :
      (x : Failure F) (c : Checks) → admission lib a ≡ rejected x c → is_nonempty x.codes ≡ true
  unfolding admission check_signature plain
  rejected-IsCoded x c e = ground (arith, e)

  resume-IsCoded :
      (x : Admission F) (st : State F) (y : VerificationResult F)
      → admission lib a ≡ x
      → result_of (resume lib a r x st) ≡ some y
      → (y.passed ≡ true) ↔ (y.errors ≡ [])
  unfolding resume fail
  resume-IsCoded non_finite st y from e = absurd (ground (arith, e))
  resume-IsCoded (rejected x c) st y from e =
      let named = rejected-IsCoded x c from in
      (λ p. absurd (ground (arith, e, p)), λ p. absurd (ground (arith, e, named, p)))
  resume-IsCoded (admitted c) st y from e = finish-IsCoded (authenticated lib a r c st) y e

  -- A result that `verify_intent` returns names an error exactly if the call did not pass, on each way
  -- through the pipeline: a caller may take the first error of a failure.
  pub passed-errors_iff :
      (st : State F) (y : VerificationResult F)
      → result_of (verify_intent lib a r st) ≡ some y
      → (y.passed ≡ true) ↔ (y.errors ≡ [])
  unfolding verify_intent
  passed-errors_iff st y e = resume-IsCoded (admission lib a) st y refl e
