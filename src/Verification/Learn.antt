-- ===== src/Verification/Learn.antt =====
-- What a stage of the pipeline that goes on has established, and what it keeps for the kill switch.
use asset_embedding_protocol.Prelude.{
  ℕ, ◌≡◌, refl, Bool, true, false, Option, none, some, [], arith, nat_eq, string_eq,
}
use asset_embedding_protocol.Number.{Float, Decimal}
use asset_embedding_protocol.Dict.{Dict}
use asset_embedding_protocol.Models.{AssetScores, RevocationCheck, Claim}
use asset_embedding_protocol.Boundaries.{check_boundaries}
use asset_embedding_protocol.Delegation.{check_delegation}
use asset_embedding_protocol.Drift.{check_asset_truth, scored, failure, AssetTruth}
use asset_embedding_protocol.Revocation.{
  RevocationStore, RevocationRecord, check_nonce, is_revoked, freshness, live_record, live_of,
}
use asset_embedding_protocol.Verification.Hoare.{Hoare-intro, Hoare, Hoare-bind, Post}
use asset_embedding_protocol.Pipeline.{
  Arguments, Readings, Session, Progress, go, leave, nonce_matches, Stage, ◌>>=◌, judge_stage,
  attestation_stage, nonce_stage, delegation_stage, agent_stage, fresh_stage, asset_stage,
  framework_unknown, settle, build_differs, prompt_differs, reserve_stage, replay_stage,
  issuer_stage,
}

-- the part of the store that the kill switch reads
abbrev pub switch : RevocationStore → Dict RevocationRecord × Bool × ℕ
switch s = (s.records, s.local_only, s.last_sync)

module _ {F : Type 0} where
  module _ {A B : Type 0} {I J : Session F → Type 0} {Fact : A → Type 0} {T : Type 0} where
    -- A stage that goes on teaches a fact that the rest may use.
    pub learn :
        (m : Stage F A) (k : A → Stage F B)
        → ((s : Session F) → I s → (x : A) → (m s).0 ≡ go x → Fact x × J (m s).1)
        → ((x : A) → Fact x → Hoare J (k x) (λ _ _. T) (λ _ _. Unit {0}))
        → Hoare I (m >>= k) (λ _ _. T) (λ _ _. Unit {0})
    learn m k fact rest =
        let known : Hoare I m (λ x s. Fact x × J s) (λ _ _. Unit {0}) =
          Hoare-intro fact (λ _ _ _ _. tt) in
        Hoare-bind m k known (λ x. record { at = λ s y. (rest x y.0).at s y.1 })

  abbrev pub Anywhere : Session F → Type 0
  Anywhere s = Unit

  -- A postcondition that holds already holds at the end.
  pub known :
      {A : Type 0} {T : Type 0} (m : Stage F A) → T → Hoare Anywhere m (λ _ _. T) (λ _ _. Unit {0})
  known m x = Hoare-intro (λ _ _ _ _. x) (λ _ _ _ _. tt)

  -- A postcondition that follows from another.
  pub following :
      {A : Type 0} {I : Session F → Type 0} {T T' : Type 0} (m : Stage F A)
      → (T → T')
      → Hoare I m (λ _ _. T) (λ _ _. Unit {0})
      → Hoare I m (λ _ _. T') (λ _ _. Unit {0})
  following m g h = record { at = λ s y. by_end (m s).0 (m s).1 g (h.at s y) }
    where
      by_end :
          {A : Type 0} {T T' : Type 0} (p : Progress F A) (s : Session F)
          → (T → T')
          → Post (λ _ _. T) (λ _ _. Unit {0}) p s
          → Post (λ _ _. T') (λ _ _. Unit {0}) p s
      by_end (go x) s g y = g y
      by_end (leave x) s g y = tt

  pub assume :
      {A : Type 0} {W : Type 0} {I : Session F → Type 0} {R : A → Session F → Type 0}
      (m : Stage F A)
      → (W → Hoare I m R (λ _ _. Unit {0}))
      → Hoare (λ s. W × I s) m R (λ _ _. Unit {0})
  assume m h = record { at = λ s y. (h y.0).at s y.1 }

module _ {F D Key : Type 0} ⦃f : Float F⦄ ⦃d : Decimal D F⦄ (a : Arguments F D Key)
    (r : Readings) where
  pub nonce_learn :
      (s : Session F) {x : Unit {0}}
      → (nonce_stage a r s).0 ≡ go x
      → nonce_matches a.envelope.entropy ≡ true
  unfolding nonce_stage
  nonce_learn s h = ground arith

  pub judge_learn :
      (before : F) (s : Session F) {x : Unit {0}}
      → (judge_stage a r before s).0 ≡ go x
      → check_boundaries a.envelope a.claim a.request_geo a.now before ≡ some []
  unfolding judge_stage
  judge_learn before s h = ground arith

  pub fresh_learn :
      (s : Session F) {x : RevocationCheck F}
      → (fresh_stage a r s).0 ≡ go x
      → (freshness {F = F} a.max_revocation_staleness_ms r.freshness_at s.state.store).stale ≡ false
  unfolding fresh_stage
  fresh_learn s h = ground arith

  pub agent_learn :
      (s : Session F) {x : Unit {0}}
      → (agent_stage a r s).0 ≡ go x
      → (is_revoked a.envelope.agent.id r.agent_revoked_at s.state.store).0 ≡ false
  unfolding agent_stage
  agent_learn s h = ground arith

  pub asset_learn :
      (s : Session F) {x : AssetScores F}
      → (asset_stage a r s).0 ≡ go x
      → check_asset_truth a.claim a.observation a.drift_config a.now ≡ scored x
  unfolding asset_stage settle
  asset_learn s {x} h = by_outcome (check_asset_truth a.claim a.observation a.drift_config a.now) h
    where
      by_outcome : (t : AssetTruth F) → (settle a r t s).0 ≡ go x → t ≡ scored x
      by_outcome (scored y) h = ground (arith, h)
      by_outcome (failure y) h = absurd (ground (arith, h))

  pub attestation_learn :
      (s : Session F) {x : Unit {0}}
      → (attestation_stage a r s).0 ≡ go x
      → (framework_unknown a r ≡ false) × (build_differs a r ≡ false) × (prompt_differs a r ≡ false)
  unfolding attestation_stage
  attestation_learn s h = ground arith

  pub delegation_learn :
      (s : Session F) {x : Unit {0}}
      → (delegation_stage a r s).0 ≡ go x
      → check_delegation a.envelope a.delegation_config a.now ≡ none
  unfolding delegation_stage
  delegation_learn s h = ground arith

  pub kept_switch :
      (s : Session F) → switch (replay_stage a r s).1.state.store ≡ switch s.state.store
  unfolding replay_stage check_nonce
  kept_switch s = ground arith

  pub reserve_switch :
      (amount : Option F) (s : Session F)
      → switch (reserve_stage a r amount s).1.state.store ≡ switch s.state.store
  unfolding reserve_stage
  reserve_switch none s = refl
  reserve_switch (some x) s = refl

  pub judge_switch :
      (before : F) (s : Session F)
      → switch (judge_stage a r before s).1.state.store ≡ switch s.state.store
  unfolding judge_stage
  judge_switch before s = ground arith

  pub fresh_switch :
      (s : Session F) → switch (fresh_stage a r s).1.state.store ≡ switch s.state.store
  unfolding fresh_stage
  fresh_switch s = ground arith

  -- the issuer of a claim, if there is one, is not revoked
  abbrev pub IssuerFree : Option (Claim D) → RevocationStore → Type 0
  IssuerFree none store = Unit
  IssuerFree (some c) store = (is_revoked c.issuer r.issuer_revoked_at store).0 ≡ false

  -- the store after the query about the agent
  abbrev pub after_agent : RevocationStore → RevocationStore
  after_agent store = (is_revoked a.envelope.agent.id r.agent_revoked_at store).1

  pub agent_switch :
      (s : Session F) (y : RevocationStore) {x : Unit {0}}
      → switch s.state.store ≡ switch y
      → (agent_stage a r s).0 ≡ go x
      → switch (agent_stage a r s).1.state.store ≡ switch (after_agent y)
  unfolding agent_stage is_revoked live_record live_of
  agent_switch s y e h = ground (arith, e, h)

  pub issuer_learn :
      (c : Option (Claim D)) (s : Session F) (y : RevocationStore) {x : Unit {0}}
      → switch s.state.store ≡ switch y
      → (issuer_stage a r c s).0 ≡ go x
      → IssuerFree c y
  unfolding issuer_stage is_revoked live_record live_of
  issuer_learn none s y e h = tt
  issuer_learn (some c) s y e h = ground (arith, e, h)

  -- The kill switch answers by what it reads.
  pub switch_free :
      (x y : RevocationStore)
      → switch x ≡ switch y
      → (is_revoked a.envelope.agent.id r.agent_revoked_at x).0 ≡ false
      → (is_revoked a.envelope.agent.id r.agent_revoked_at y).0 ≡ false
  unfolding is_revoked live_record live_of
  switch_free x y e h = ground (arith, e, h)

  pub switch_fresh :
      (x y : RevocationStore)
      → switch x ≡ switch y
      → (freshness {F = F} a.max_revocation_staleness_ms r.freshness_at x).stale ≡ false
      → (freshness {F = F} a.max_revocation_staleness_ms r.freshness_at y).stale ≡ false
  unfolding freshness
  switch_fresh x y e h = ground (arith, e, h)
