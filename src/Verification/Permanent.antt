-- ===== src/Verification/Permanent.antt =====
-- A permanent revocation outlasts every call of `verify_intent`.
use asset_embedding_protocol.Prelude.{
  ℕ, String, ◌≡◌, ap, true, Option, none, some, arith, eq_iff, nat_eq, string_eq,
}
use asset_embedding_protocol.Number.{Float, Decimal}
use asset_embedding_protocol.Dict
use asset_embedding_protocol.Pipeline.{
  go, leave, stop, escape, admitted, rejected, non_finite, stages, conclude, resume, admission,
  boundaries_stage, Progress, finish, authenticated, Success, Admission,
}
use asset_embedding_protocol.Dict.Laws.{get-remove}
use asset_embedding_protocol.Canonical.{Platform}
use asset_embedding_protocol.Revocation.{
  RevocationStore, is_revoked, is_suspended, live_record, live_of, lapsed, RevocationRecord,
}
use asset_embedding_protocol.Revocation.KillSwitch.{of_record, permanent}
use asset_embedding_protocol.Pipeline.{
  Arguments, Readings, State, Session, verify_intent, issuer_stage, Stage, agent_stage,
}
use asset_embedding_protocol.Verification.Hoare.{Hoare, Hoare-bind, Hoare-both, Hoare-view, Post}
use asset_embedding_protocol.Verification.Kept.{Kept, later_kept}
use asset_embedding_protocol.Verification.Learn.{
  fresh_switch, kept_switch, reserve_switch, judge_switch,
}
use asset_embedding_protocol.Verification.Frames.{
  state-pass, state-asset_stage, state-attestation_stage, state-delegation_stage, state-trust_stage,
  state-nonce_stage, amount_same,
}
use asset_embedding_protocol.Models.{Claim}
use asset_embedding_protocol.Dict.{Dict}
use asset_embedding_protocol.Verification.Unauthenticated.{state_of}

-- is the subject revoked with no end?
abbrev Barred : String → Dict RevocationRecord → Type 0
Barred subject records = of_record (Dict.get subject records) ≡ permanent

abbrev pub Banned : String → RevocationStore → Type 0
Banned subject s = Barred subject s.records

live_record-Banned :
    (subject other : String) (now : ℕ) (s : RevocationStore)
    → Banned subject s
    → Banned subject (live_record other now s).1
unfolding live_record live_of lapsed
live_record-Banned subject other now s h =
    ground (arith, h, get-remove other subject s.records, eq_iff other subject)

pub is_revoked-Banned :
    (subject : String) (now : ℕ) (s : RevocationStore)
    → Banned subject s
    → (is_revoked subject now s).0 ≡ true
unfolding is_revoked live_record live_of lapsed
is_revoked-Banned subject now s h = ground (arith, h)

module _ {F : Type 0} (subject : String) where
  abbrev records_of : State F → Dict RevocationRecord
  records_of st = st.store.records

  abbrev Still : Session F → Type 0
  Still s = Barred subject (records_of s.state)

  -- A stage that leaves the records as they are leaves the subject banned.
  same :
      {A : Type 0} {m : Stage F A}
      → ((s : Session F) → records_of (m s).1.state ≡ records_of s.state)
      → Hoare Still m (λ _. Still) (λ _. Still)
  same e = Hoare-view (λ s. records_of s.state) (Barred subject) (λ x s h. h) e

module _ {F D Key : Type 0} ⦃f : Float F⦄ ⦃d : Decimal D F⦄ (lib : Platform F Key)
    (a : Arguments F D Key) (r : Readings) (subject : String) where
  agent-Still : (s : Session F) → Still subject s → Still subject (agent_stage a r s).1
  unfolding agent_stage is_revoked is_suspended
  agent-Still s h =
      let agent = a.envelope.agent.id in
      let (x, store) = live_record agent r.agent_revoked_at s.state.store in
      let h' = live_record-Banned subject agent r.agent_revoked_at s.state.store h in
      let h'' = live_record-Banned subject agent r.agent_suspended_at store h' in
      ground (arith, h', h'')

  issuer-Still :
      (c : Option (Claim D)) (s : Session F)
      → Still subject s
      → Still subject (issuer_stage a r c s).1
  unfolding issuer_stage is_revoked
  issuer-Still none s h = h
  issuer-Still (some c) s h =
      let h' = live_record-Banned subject c.issuer r.issuer_revoked_at s.state.store h in
      ground (arith, h')

  records : State F → Dict RevocationRecord
  records st = st.store.records

  all-Still : Kept lib a r (Still subject) (λ _. Still subject)
  unfolding records
  all-Still = record {
    pass_kept = λ step. same subject (λ s. ap records (state-pass step s));
    fresh = same subject (λ s. ap (λ x. x.0) (fresh_switch a r s));
    agent = Hoare-both agent-Still;
    issuer = λ c. Hoare-both (issuer-Still c);
    asset = same subject (λ s. ap records (state-asset_stage a r s));
    attestation = same subject (λ s. ap records (state-attestation_stage a r s));
    delegation = same subject (λ s. ap records (state-delegation_stage a r s));
    trust = same subject (λ s. ap records (state-trust_stage a r s));
  }

  stages-Still : Hoare (Still subject) (stages lib a r) (λ _. Still subject) (λ _. Still subject)
  unfolding stages boundaries_stage records
  stages-Still = Hoare-bind _ _ (same subject (λ s. ap records (state-nonce_stage a r s))) (λ _.
      Hoare-bind _ _ (same subject (λ s. ap (λ x. x.0) (kept_switch a r s))) (λ _.
        later_kept lib a r all-Still (
          Hoare-bind _ _
            (same subject (λ s. ap (λ (t : Session F). records t.state) (amount_same a r s)))
            (λ amount.
              Hoare-bind _ _ (same subject (λ s. ap (λ x. x.0) (reserve_switch a r amount s)))
                (λ before. same subject (λ s. ap (λ x. x.0) (judge_switch a r before s)))))))

  conclude-Still :
      (p : Progress F (Success F)) (s : Session F)
      → Post (λ _. Still subject) (λ _. Still subject) p s
      → Banned subject (state_of (conclude lib a r p s)).store
  unfolding conclude
  conclude-Still (go x) s h = h
  conclude-Still (leave (stop x)) s h = h
  conclude-Still (leave (escape x)) s h = h

  resume-Still :
      (x : Admission F) (st : State F)
      → Banned subject st.store
      → Banned subject (state_of (resume lib a r x st)).store
  unfolding resume finish authenticated
  resume-Still non_finite st h = h
  resume-Still (rejected x c) st h = h
  resume-Still (admitted c) st h =
      let s = authenticated lib a r c st in
      conclude-Still (stages lib a r s).0 (stages lib a r s).1 (stages-Still.at s h)

  -- A permanent revocation of any subject outlasts a call.
  pub verify_intent-Banned :
      (st : State F)
      → Banned subject st.store
      → Banned subject (state_of (verify_intent lib a r st)).store
  unfolding verify_intent
  verify_intent-Banned st h = resume-Still (admission lib a) st h
