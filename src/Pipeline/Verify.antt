-- ===== src/Pipeline/Verify.antt =====
-- verification.py: `verify_intent`, its success and its two failures.
use asset_embedding_protocol.Prelude.{
  true, false, Option, none, some, [], if◌then◌else◌, nat_eq, string_eq, length,
}
use asset_embedding_protocol.Number.{Float, Decimal}
use asset_embedding_protocol.Models.{failed, AssetScores, Reference, RevocationCheck}
use asset_embedding_protocol.Canonical.{Platform}
use asset_embedding_protocol.Trust.{
  record_attestation, record_delegation_depth, release_amount, record_intent,
}
use asset_embedding_protocol.Revocation.{freshness}
use asset_embedding_protocol.Pipeline.Context.{
  Arguments, Readings, State, Session, Failure, Stage, Progress, go, leave, stop, escape, Escape,
  non_finite_payload, VerificationResult, mark, Checks, pure, ◌>>=◌, ◌>>◌, verification_passed,
}
use asset_embedding_protocol.Pipeline.Admit.{
  admitted, rejected, non_finite, admission, effective_tier, is_tier_0, is_tier_1, Admission,
}
use asset_embedding_protocol.Pipeline.Stages.{
  nonce_stage, replay_stage, boundaries_stage, revocation_stage, asset_stage, reference_of,
  attestation_stage, delegation_stage, trust_stage,
}

-- a result, or an exception that escapes, beside the state that the call leaves
pub data Outcome (F : Type 0) : Type 0 where
  returned : VerificationResult F → State F → Outcome F
  raised : Escape → State F → Outcome F

-- What `succeed` is called with.
pub record Success (F : Type 0) : Type 0 where
  pub scores : Option (AssetScores F)
  pub reference : Option Reference
  pub revocation : RevocationCheck F

module _ {F D Key : Type 0} ⦃f : Float F⦄ ⦃d : Decimal D F⦄ (lib : Platform F Key)
    (a : Arguments F D Key) (r : Readings) where
  -- fail
  unfoldable pub fail : Failure F → Checks → State F → VerificationResult F
  fail x checks state = record {
    passed = false;
    checks = mark x.step failed checks;
    revocation = freshness {F = F} a.max_revocation_staleness_ms r.failed_at state.store;
    trust_score = f.nought;
    tier_used = effective_tier a.envelope.verification_tier;
    scores = x.scores;
    reference = x.reference;
    errors = x.codes;
    detail = x.detail;
  }

  -- fail_authenticated
  unfoldable pub fail_authenticated : Failure F → Session F → Outcome F
  unfolding fail
  fail_authenticated x s =
      let agent = a.envelope.agent.id in
      let trust =
        record_intent agent false a.now (release_amount agent s.ledger_token s.state.trust) in
      let state = record (s.state) { trust = trust } in returned (fail x s.checks state) state

  -- succeed
  unfoldable pub succeed : Success F → Session F → Outcome F
  succeed x s =
      returned
        (record {
          passed = true;
          checks = s.checks;
          revocation = x.revocation;
          trust_score = f.nought;
          tier_used = effective_tier a.envelope.verification_tier;
          scores = x.scores;
          reference = x.reference;
          errors = [];
          detail = verification_passed (effective_tier a.envelope.verification_tier);
        })
        (record (s.state) { trust = record_intent a.envelope.agent.id true a.now s.state.trust })

  -- steps 10 and 11, and the exit of tier 2
  unfoldable pub tier_2_stages : Success F → Stage F (Success F)
  tier_2_stages x = do delegation_stage a r; trust_stage a r; pure x

  -- steps 8 and 9, and the exit of tier 1
  unfoldable pub tier_1_stages : RevocationCheck F → Stage F (Success F)
  tier_1_stages check = do
    scores ← asset_stage a r
    attestation_stage a r
    let x : Success F = record {
      scores = some scores;
      reference = reference_of a r;
      revocation = check;
    }
    if is_tier_1 (effective_tier a.envelope.verification_tier) then pure x else tier_2_stages x

  -- steps 6 to 11, and the exit of tier 0
  unfoldable pub later_stages : Stage F (Success F)
  later_stages = do
    boundaries_stage a r
    check ← revocation_stage a r
    if is_tier_0 (effective_tier a.envelope.verification_tier)
        then pure (record { scores = none; reference = none; revocation = check })
        else tier_1_stages check

  -- steps 5 to 11
  unfoldable pub stages : Stage F (Success F)
  stages = do nonce_stage a r; replay_stage a r; later_stages

  -- the session that step 5 starts from
  unfoldable pub authenticated : Checks → State F → Session F
  authenticated checks state =
      let agent = a.envelope.agent.id in
      let seen =
        record_attestation agent a.envelope.agent.attestation.build_hash
          a.envelope.agent.attestation.system_prompt_hash a.now state.trust in
      record {
        state = record state {
          trust =
              record_delegation_depth agent (length a.envelope.principal.delegation_chain) a.now
                seen;
        };
        ledger_token = none;
        checks = checks;
      }

  -- the way that steps 5 to 11 ended
  unfoldable pub conclude : Progress F (Success F) → Session F → Outcome F
  unfolding succeed fail_authenticated
  conclude (go x) s = succeed x s
  conclude (leave (stop x)) s = fail_authenticated x s
  conclude (leave (escape e)) s = raised e s.state

  -- steps 5 to 11, and the way they end
  unfoldable pub finish : Session F → Outcome F
  unfolding conclude
  finish s = let (p, s') = stages s in conclude p s'

  -- what follows steps 1 to 4
  unfoldable pub resume : Admission F → State F → Outcome F
  unfolding fail
  resume non_finite state = raised non_finite_payload state
  resume (rejected x checks) state = returned (fail x checks state) state
  resume (admitted checks) state = finish (authenticated checks state)

  unfoldable pub verify_intent : State F → Outcome F
  unfolding resume
  verify_intent state = resume (admission lib a) state
