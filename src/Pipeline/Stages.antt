-- ===== src/Pipeline/Stages.antt =====
-- verification.py, steps 5 to 11: what is checked once the agent is authenticated.
use asset_embedding_protocol.Prelude.{
  ℕ, zero, suc, String, Bool, true, false, ◌&&◌, ◌||◌, Option, none, some, [], ◌∷◌, leb, ◌==◌,
  nat_eq, string_eq, not, if◌then◌else◌, is_nonempty, contains,
}
use asset_embedding_protocol.Number.{Float, Decimal}
use asset_embedding_protocol.Text.{Codes, codes, codes_eq}
use asset_embedding_protocol.Errors.{
  nonce_invalid, replay_detected, trust_score_low, attestation_mismatch, issuer_revoked,
  revocation_stale, agent_suspended, agent_revoked,
}
use asset_embedding_protocol.Trust.{reserve_amount, day_total, record_violation}
use asset_embedding_protocol.Revocation.{
  check_nonce, default_nonce_ttl, is_revoked, is_suspended, freshness,
}
use asset_embedding_protocol.Pipeline.Context.{
  ◌>>◌, Arguments, Readings, Stage, go, Step, require, nonce_malformed, nonce_used, pass, ◌>>=◌,
  plain, pure, leave, halt, escape, amount_too_large, chain, trust_too_low, boundaries_violated,
  issuer_not_permitted, framework_not_registered, asset, build_hash_differs, revocation_data_stale,
  prompt_hash_differs, agent_not_permitted,
}
use asset_embedding_protocol.Models.{
  framework_registry, AssetScores, AttestationMethod, RevocationCheck, Claim, Reference,
}
use asset_embedding_protocol.Trust.Score.{meets_threshold}
use asset_embedding_protocol.Dict
use asset_embedding_protocol.Dict.{Dict}
use asset_embedding_protocol.Boundaries.{check_boundaries, numeric}
use asset_embedding_protocol.Delegation.{check_delegation}
use asset_embedding_protocol.Drift.{reference, AssetTruth, check_asset_truth, scored, failure}

is_hex : ℕ → Bool
is_hex c = (leb b'0' c && leb c b'9') || (leb b'a' c && leb c b'f')

-- `[0-9a-f]{n}$`: exactly n digits, and `$` also matches before a line feed that ends the text
hex_tail : ℕ → Codes → Bool
hex_tail zero [] = true
hex_tail zero (c ∷ []) = c == 10
hex_tail zero (c ∷ d ∷ cs) = false
hex_tail (suc n) [] = false
hex_tail (suc n) (c ∷ cs) = is_hex c && hex_tail n cs

after_prefix : Codes → Codes → Bool
after_prefix [] cs = hex_tail 32 cs
after_prefix (p ∷ ps) [] = false
after_prefix (p ∷ ps) (c ∷ cs) = (p == c) && after_prefix ps cs

-- NONCE_PATTERN.match
unfoldable pub nonce_matches : String → Bool
unfolding after_prefix hex_tail is_hex
nonce_matches s = after_prefix (codes "nonce:") (codes s)

-- attestation.method is AttestationMethod.FRAMEWORK_REGISTRY
abbrev is_framework : AttestationMethod → Bool
is_framework framework_registry = true
is_framework m = false

-- known is not None and key in known and given is not None and given != known[key]
differs : Option (Dict String) → String → Option String → Bool
differs (some known) key (some given) = elim (Dict.get key known) [
  | none ↦ false
  | some expected ↦ not (given == expected)
]
differs known key given = false

module _ {F D Key : Type 0} ⦃f : Float F⦄ ⦃d : Decimal D F⦄ (a : Arguments F D Key)
    (r : Readings) where
  -- 5. Nonce format.
  unfoldable pub nonce_stage : Stage F (Unit {0})
  unfolding require
  nonce_stage =
      require (nonce_matches a.envelope.entropy) Step.nonce_format nonce_invalid nonce_malformed

  -- 5b. Replay, which consumes the nonce.
  unfoldable pub replay_stage : Stage F (Unit {0})
  unfolding require
  replay_stage s =
      let (new, store) =
        check_nonce a.envelope.entropy default_nonce_ttl r.nonce_cutoff_at r.nonce_stored_at
          s.state.store in
      require new Step.replay replay_detected nonce_used
        (record s { state = record (s.state) { store = store } })

  -- the reservation of step 6, or the total alone where there is no amount
  unfoldable pub reserve_stage : Option F → Stage F F
  reserve_stage (some amount) s =
      let ((token, before), trust) =
        reserve_amount a.envelope.agent.id amount a.envelope.boundaries.monetary_limit.per_day a.now
          r.token s.state.trust in
      (go before, record s { state = record (s.state) { trust = trust }; ledger_token = token })
  reserve_stage none s =
      let (before, trust) = day_total a.envelope.agent.id a.now s.state.trust in
      (go before, record s { state = record (s.state) { trust = trust } })

  -- the violations for a total, each recorded once against the agent
  unfoldable pub judge_stage : F → Stage F (Unit {0})
  unfolding plain pass
  judge_stage before s = elim (check_boundaries a.envelope a.claim a.request_geo a.now before) [
    | none ↦ (leave (escape amount_too_large), s)
    | some codes' ↦
        if is_nonempty codes'
        then (
          halt (plain Step.boundaries codes' boundaries_violated),
          record s {
            state = record (s.state) {
              trust = record_violation a.envelope.agent.id a.now s.state.trust;
            };
          },
        )
        else pass Step.boundaries s
  ]

  -- the amount as a float, where OverflowError ends the call
  unfoldable pub amount_stage : Stage F (Option F)
  amount_stage s = elim (numeric (Dict.get "amount" a.envelope.intent.parameters)) [
    | none ↦ (leave (escape amount_too_large), s)
    | some amount ↦ (go amount, s)
  ]

  -- 6. Boundaries.
  unfoldable pub boundaries_stage : Stage F (Unit {0})
  boundaries_stage = do amount ← amount_stage; before ← reserve_stage amount; judge_stage before

  -- store.is_revoked(agent_id), then store.is_suspended(agent_id) for the code
  unfoldable pub agent_stage : Stage F (Unit {0})
  unfolding plain
  agent_stage s =
      let (revoked, store) = is_revoked a.envelope.agent.id r.agent_revoked_at s.state.store in
      let (suspended, store') = is_suspended a.envelope.agent.id r.agent_suspended_at store in
      if revoked
      then (
        halt (
            plain Step.revocation ((if suspended then agent_suspended else agent_revoked) ∷ [])
              agent_not_permitted),
        record s { state = record (s.state) { store = store' } },
      )
      else (go tt, record s { state = record (s.state) { store = store } })

  -- claim is not None and store.is_revoked(claim.issuer)
  unfoldable pub issuer_stage : Option (Claim D) → Stage F (Unit {0})
  unfolding plain
  issuer_stage none s = (go tt, s)
  issuer_stage (some claim) s =
      let (revoked, store) = is_revoked claim.issuer r.issuer_revoked_at s.state.store in
      let s' = record s { state = record (s.state) { store = store } } in
      if revoked
      then (halt (plain Step.revocation (issuer_revoked ∷ []) issuer_not_permitted), s')
      else (go tt, s')

  -- store.freshness, and the failure on stale data
  unfoldable pub fresh_stage : Stage F (RevocationCheck F)
  unfolding plain
  fresh_stage s =
      let check = freshness {F = F} a.max_revocation_staleness_ms r.freshness_at s.state.store in
      if check.stale
      then (halt (plain Step.revocation (revocation_stale ∷ []) revocation_data_stale), s)
      else (go check, s)

  -- 7. Revocation.
  unfoldable pub revocation_stage : Stage F (RevocationCheck F)
  revocation_stage = do
    check ← fresh_stage
    agent_stage
    issuer_stage a.claim
    pass Step.revocation
    pure check

  -- the outcome of check_asset_truth as a stage
  unfoldable pub settle : AssetTruth F → Stage F (AssetScores F)
  unfolding pass
  settle (scored x) s = (go x, (pass Step.asset_truth s).1)
  settle (failure x) s = (
    halt (record {
      step = Step.asset_truth;
      codes = x.code ∷ [];
      detail = asset x.detail;
      scores = x.scores;
      reference = x.reference;
    }),
    s,
  )

  -- 8. Asset truth.
  unfoldable pub asset_stage : Stage F (AssetScores F)
  unfolding settle
  asset_stage = settle (check_asset_truth a.claim a.observation a.drift_config a.now)

  -- the dict `reference`, of a claim and an observation that are there
  unfoldable pub reference_of : Option Reference
  unfolding reference
  reference_of = elim a.claim [
    | none ↦ none
    | some c ↦ elim a.observation [ none ↦ none | some o ↦ some (reference c o) ]
  ]

  -- the three opt-in checks of step 9
  unfoldable pub framework_unknown : Bool
  framework_unknown =
      is_framework a.envelope.agent.attestation.method && elim a.registered_frameworks [
        | none ↦ false
        | some fs ↦ elim a.envelope.agent.attestation.framework_id [
          | none ↦ true
          | some i ↦ not (contains i fs)
        ]
      ]

  unfoldable pub build_differs : Bool
  unfolding differs
  build_differs = elim a.envelope.agent.attestation.framework_id [
    | none ↦ false
    | some i ↦ differs a.known_build_hashes i a.envelope.agent.attestation.build_hash
  ]

  unfoldable pub prompt_differs : Bool
  unfolding differs
  prompt_differs =
      differs a.known_prompt_hashes a.envelope.agent.id
        a.envelope.agent.attestation.system_prompt_hash

  -- 9. Attestation.
  unfoldable pub attestation_stage : Stage F (Unit {0})
  unfolding framework_unknown build_differs prompt_differs plain pass
  attestation_stage s =
      if framework_unknown
      then (halt (plain Step.attestation (attestation_mismatch ∷ []) framework_not_registered), s)
      else if build_differs
      then (halt (plain Step.attestation (attestation_mismatch ∷ []) build_hash_differs), s)
      else if prompt_differs
      then (halt (plain Step.attestation (attestation_mismatch ∷ []) prompt_hash_differs), s)
      else pass Step.attestation s

  -- 10. Delegation.
  unfoldable pub delegation_stage : Stage F (Unit {0})
  unfolding plain pass
  delegation_stage s = elim (check_delegation a.envelope a.delegation_config a.now) [
    | none ↦ pass Step.delegation s
    | some x ↦ (halt (plain Step.delegation (x.code ∷ []) (chain x.detail)), s)
  ]

  -- 11. Trust score gate.
  unfoldable pub trust_stage : Stage F (Unit {0})
  unfolding require
  trust_stage s =
      require (meets_threshold a.envelope.agent.id a.min_trust_score s.state.trust) Step.trust
        trust_score_low trust_too_low s
