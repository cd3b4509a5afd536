-- ===== src/Verification/Sound.antt =====
-- What a pass of `verify_intent` implies.
use asset_embedding_protocol.Prelude.{
  ◌≡◌, refl, true, false, none, [], arith, nat_eq, string_eq, ◌∙◌, ap, subst, some,
}
use asset_embedding_protocol.Number.{Float, Decimal}
use asset_embedding_protocol.Canonical.{Platform}
use asset_embedding_protocol.Models.{AssetScores, RevocationCheck, VerificationTier}
use asset_embedding_protocol.Boundaries.{check_boundaries}
use asset_embedding_protocol.Delegation.{check_delegation}
use asset_embedding_protocol.Drift.{check_asset_truth, scored}
use asset_embedding_protocol.Revocation.{
  RevocationStore, check_nonce, default_nonce_ttl, is_revoked, freshness,
}
use asset_embedding_protocol.Verification.Hoare.{Hoare-intro, Hoare, Hoare-bind, Hoare-if}
use asset_embedding_protocol.Verification.Unauthenticated.{
  IsAuthentic, has_passed, admitted-IsAuthentic,
}
use asset_embedding_protocol.Pipeline.{
  Arguments, Readings, State, Session, Success, nonce_matches, tier_2_stages, framework_unknown,
  is_tier_0, build_differs, effective_tier, prompt_differs, is_tier_1, tier_1_stages,
  boundaries_stage, later_stages, revocation_stage, resume, verify_intent, stages, authenticated,
  admission, finish, Admission, rejected, admitted,
}
use asset_embedding_protocol.Verification.Frames.{state-nonce_stage, amount_same}
use asset_embedding_protocol.Verification.Cache.{conclude-go, replay_stage_new, Post-go}
use asset_embedding_protocol.Verification.Learn.{
  Anywhere, switch, learn, known, following, assume, nonce_learn, judge_learn, fresh_learn,
  agent_learn, asset_learn, attestation_learn, delegation_learn, kept_switch, reserve_switch,
  judge_switch, fresh_switch, switch_free, switch_fresh, after_agent, IssuerFree, agent_switch,
  issuer_learn,
}
use asset_embedding_protocol.Pipeline.{non_finite}

module _ {F D Key : Type 0} ⦃f : Float F⦄ ⦃d : Decimal D F⦄ (lib : Platform F Key)
    (a : Arguments F D Key) (r : Readings) where
  -- the facts of steps 8 to 11 for a tier
  pub record IsDeep (scores : AssetScores F) : Type 0 where
    pub truth : check_asset_truth a.claim a.observation a.drift_config a.now ≡ scored scores
    pub framework : framework_unknown a r ≡ false
    pub build : build_differs a r ≡ false
    pub prompt : prompt_differs a r ≡ false

  -- Every condition of the pipeline but the last, on the state that the call started from.
  pub record IsCleared (st : State F) : Type 0 where
    pub authentic : IsAuthentic lib a
    pub well_formed : nonce_matches a.envelope.entropy ≡ true
    pub unused :
        (check_nonce a.envelope.entropy default_nonce_ttl r.nonce_cutoff_at r.nonce_stored_at
          st.store).0
        ≡ true
    pub within :
        (before : F) × (check_boundaries a.envelope a.claim a.request_geo a.now before ≡ some [])
    pub fresh :
        (freshness {F = F} a.max_revocation_staleness_ms r.freshness_at st.store).stale ≡ false
    pub agent_free : (is_revoked a.envelope.agent.id r.agent_revoked_at st.store).0 ≡ false
    pub issuer_free : IssuerFree a r a.claim (after_agent a r st.store)
    pub deep :
        is_tier_0 (effective_tier a.envelope.verification_tier) ≡ false
        → (scores : AssetScores F) × IsDeep scores
    pub delegated :
        is_tier_0 (effective_tier a.envelope.verification_tier) ≡ false
        → is_tier_1 (effective_tier a.envelope.verification_tier) ≡ false
        → check_delegation a.envelope a.delegation_config a.now ≡ none

  abbrev tier : VerificationTier
  tier = effective_tier a.envelope.verification_tier

  -- what the steps after the revocation check establish
  record IsDeepFor : Type 0 where
    deep_for : is_tier_0 tier ≡ false → (scores : AssetScores F) × IsDeep scores
    delegated_for :
        is_tier_0 tier ≡ false
        → is_tier_1 tier ≡ false
        → check_delegation a.envelope a.delegation_config a.now ≡ none

  tier_2_learn :
      (x : Success F)
      → Hoare Anywhere
          (tier_2_stages lib a r x)
          (λ _ _. check_delegation a.envelope a.delegation_config a.now ≡ none)
          (λ _ _. Unit {0})
  unfolding tier_2_stages
  tier_2_learn x =
      learn {J = Anywhere} _ _ (λ s _ u h. (delegation_learn a r s h, tt))
        (λ _ unbroken. known _ unbroken)

  tier_1_learn :
      (check : RevocationCheck F)
      → Hoare Anywhere (tier_1_stages lib a r check) (λ _ _. IsDeepFor) (λ _ _. Unit {0})
  unfolding tier_1_stages
  tier_1_learn check =
      learn {J = Anywhere} _ _ (λ s _ x h. (asset_learn a r s h, tt))
        (λ scores truth.
          learn {J = Anywhere} _ _ (λ s _ u h. (attestation_learn a r s h, tt))
            (λ _ attested.
              let deep : IsDeep scores = record {
                truth = truth;
                framework = attested.0;
                build = attested.1;
                prompt = attested.2;
              } in
              Hoare-if (is_tier_1 tier) _ _
                (λ one. known _ (record {
                  deep_for = λ _. (scores, deep);
                  delegated_for = λ _ other. absurd (ground arith);
                }))
                (λ two.
                  following _
                    (λ unbroken. record {
                      deep_for = λ _. (scores, deep);
                      delegated_for = λ _ _. unbroken;
                    })
                    (tier_2_learn _))))

  module _ (st : RevocationStore) where
    -- The kill switch is as it was at first.
    abbrev Same : Session F → Type 0
    Same s = switch s.state.store ≡ switch st

    abbrev Within : Type 0
    Within =
        (before : F) × (check_boundaries a.envelope a.claim a.request_geo a.now before ≡ some [])

    abbrev Free : Type 0
    Free =
        ((freshness {F = F} a.max_revocation_staleness_ms r.freshness_at st).stale ≡ false)
        × ((is_revoked a.envelope.agent.id r.agent_revoked_at st).0 ≡ false)
        × IssuerFree a r a.claim (after_agent a r st)

    boundaries_learn : Hoare Same (boundaries_stage a r) (λ _ s. Within × Same s) (λ _ _. Unit {0})
    unfolding boundaries_stage
    boundaries_learn =
        Hoare-bind _ _
          (Hoare-intro
            (λ s e x h. ap (λ (t : Session F). switch t.state.store) (amount_same a r s) ∙ e)
            (λ _ _ _ _. tt))
          (λ amount.
            Hoare-bind _ _
              (Hoare-intro (λ s e x h. reserve_switch a r amount s ∙ e) (λ _ _ _ _. tt))
              (λ before.
                Hoare-intro
                  (λ s e x h. ((before, judge_learn a r before s h), judge_switch a r before s ∙ e))
                  (λ _ _ _ _. tt)))

    revocation_learn :
        Hoare Same (revocation_stage a r) (λ _ s. Free × Anywhere s) (λ _ _. Unit {0})
    unfolding revocation_stage
    revocation_learn =
        following _ (λ y. (y, tt))
          (learn {J = Same} _ _
            (λ s e x h.
              (switch_fresh a r s.state.store st e (fresh_learn a r s h), fresh_switch a r s ∙ e))
            (λ check fresh.
              learn {J = λ s. switch s.state.store ≡ switch (after_agent a r st)} _ _
                (λ s e x h. (
                  switch_free a r s.state.store st e (agent_learn a r s h),
                  agent_switch a r s st e h,
                ))
                (λ _ free.
                  learn {J = Anywhere} _ _
                    (λ s e x h. (issuer_learn a r a.claim s (after_agent a r st) e h, tt))
                    (λ _ issuer. known _ (fresh, free, issuer)))))

    later_learn :
        Hoare Same (later_stages lib a r) (λ _ _. Within × Free × IsDeepFor) (λ _ _. Unit {0})
    unfolding later_stages
    later_learn = Hoare-bind _ _ boundaries_learn (λ _. assume _ (λ within.
        Hoare-bind _ _ revocation_learn (λ check. assume _ (λ free.
          Hoare-if (is_tier_0 tier) _ _
            (λ zero. known _ (
              within,
              free,
              record {
                deep_for = λ other. absurd (ground arith);
                delegated_for = λ other _. absurd (ground arith);
              },
            ))
            (λ deep. following _ (λ y. (within, free, y)) (tier_1_learn check))))))

    stages_learn :
        Hoare
          (λ s. s.state.store ≡ st)
          (stages lib a r)
          (λ _ _.
            (nonce_matches a.envelope.entropy ≡ true)
            × ((check_nonce a.envelope.entropy default_nonce_ttl r.nonce_cutoff_at r.nonce_stored_at
                  st).0
                ≡ true)
            × Within
            × Free
            × IsDeepFor)
          (λ _ _. Unit {0})
    unfolding stages
    stages_learn =
        learn {J = λ s. s.state.store ≡ st} _ _
          (λ s e x h.
            (nonce_learn a r s h, ap (λ (t : State F). t.store) (state-nonce_stage a r s) ∙ e))
          (λ _ well.
            learn {J = Same} _ _
              (λ s e x h. (
                subst
                    (λ t.
                      (check_nonce a.envelope.entropy default_nonce_ttl r.nonce_cutoff_at
                        r.nonce_stored_at t).0
                      ≡ true)
                    e (replay_stage_new lib a r s h),
                kept_switch a r s ∙ ap switch e,
              ))
              (λ _ unused. following _ (λ y. (well, unused, y.0, y.1, y.2)) later_learn))

  finish-IsCleared :
      (s : Session F) (st : State F)
      → s.state.store ≡ st.store
      → IsAuthentic lib a
      → has_passed (finish lib a r s) ≡ true
      → IsCleared st
  finish-IsCleared s st e authentic h =
      let (x, ended) =
        conclude-go lib a r (stages lib a r s).0 (stages lib a r s).1 (unfold finish in h) in
      let (well, unused, within, (fresh, free, issuer), deep) =
        Post-go lib a r (λ _. _) (stages lib a r s).0 (stages lib a r s).1 x ended
          ((stages_learn st.store).at s e) in
      record {
        authentic = authentic;
        well_formed = well;
        unused = unused;
        within = within;
        fresh = fresh;
        agent_free = free;
        issuer_free = issuer;
        deep = deep.deep_for;
        delegated = deep.delegated_for;
      }

  resume-IsCleared :
      (x : Admission F) (st : State F)
      → admission lib a ≡ x
      → has_passed (resume lib a r x st) ≡ true
      → IsCleared st
  unfolding resume authenticated
  resume-IsCleared non_finite st e h = absurd (ground arith)
  resume-IsCleared (rejected x c) st e h = absurd (ground arith)
  resume-IsCleared (admitted c) st e h =
      finish-IsCleared (authenticated lib a r c st) st refl (admitted-IsAuthentic lib a e) h

  -- A call that passes has met the conditions of the pipeline on the state it started from: the
  -- envelope is authentic, its nonce is well formed and unused, no boundary is violated for some total
  -- of the day, the revocation data is not stale, the agent is not revoked nor, after that query, the
  -- claim's issuer; above tier 0 the claim passed the asset check and the attestation no opt-in check
  -- refused; above tier 1 the delegation chain holds.
  pub pass-IsCleared : (st : State F) → has_passed (verify_intent lib a r st) ≡ true → IsCleared st
  unfolding verify_intent
  pass-IsCleared st h = resume-IsCleared (admission lib a) st refl h
