-- ===== src/Pipeline/Admit.antt =====
-- verification.py, steps 1 to 4: what is checked before the agent is authenticated. Nothing here
-- touches the store or the trust engine.
use asset_embedding_protocol.Prelude.{
  ℕ, ◌+◌, ◌*◌, String, Bool, true, false, not, ◌||◌, none, some, List, [], ◌∷◌, ltb, if◌then◌else◌,
  ◌==◌, nat_eq, string_eq, contains,
}
use asset_embedding_protocol.Number.{Float}
use asset_embedding_protocol.Errors.{
  version_unsupported, schema_invalid, expired_envelope, clock_skew, invalid_signature,
}
use asset_embedding_protocol.Models.{
  passed, VerificationTier, tier_0, tier_1, tier_2, Proof, action_value, second,
}
use asset_embedding_protocol.Canonical.{
  Platform, Bytes, signable_payload, verify_signature, hmac_verify,
}
use asset_embedding_protocol.Pipeline.Context.{
  mark, all_not_run, Checks, Arguments, Failure, Step, plain, version_not_supported,
  no_agent_or_action, expires_in_past, issued_in_future, no_proof, signature_failed,
}

-- _TIER_ORDER
unfoldable pub tier_order : VerificationTier → ℕ
tier_order tier_0 = 0
tier_order tier_1 = 1
tier_order tier_2 = 2

-- _effective_tier, where _MAX_IMPLEMENTED_TIER is tier 2
unfoldable pub effective_tier : VerificationTier → VerificationTier
unfolding tier_order
effective_tier requested =
    if ltb (tier_order tier_2) (tier_order requested) then tier_2 else requested

abbrev pub is_tier_0 : VerificationTier → Bool
is_tier_0 tier_0 = true
is_tier_0 t = false

abbrev pub is_tier_1 : VerificationTier → Bool
is_tier_1 tier_1 = true
is_tier_1 t = false

-- SUPPORTED_VERSIONS
abbrev pub supported_versions : List String
supported_versions = "1.0.0" ∷ []

-- How steps 1 to 4 end: all passed, a failure at a step, or NonFiniteNumberError from the payload;
-- with `checks` as it is then.
pub data Admission (F : Type 0) : Type 0 where
  admitted : Checks → Admission F
  rejected : Failure F → Checks → Admission F
  non_finite : Admission F

module _ {F D Key : Type 0} ⦃f : Float F⦄ (lib : Platform F Key) where
  -- the signature over the payload, by the shared key at tier 0 where there is one
  unfoldable pub signature_ok : Arguments F D Key → Bytes → Proof → Bool
  unfolding verify_signature hmac_verify effective_tier
  signature_ok a payload proof = elim a.hmac_key [
    | none ↦ verify_signature lib a.public_key payload proof.proof_value
    | some key ↦
        if is_tier_0 (effective_tier a.envelope.verification_tier)
        then hmac_verify lib key payload proof.proof_value
        else verify_signature lib a.public_key payload proof.proof_value
  ]

  -- 4. The signature.
  unfoldable pub check_signature : Arguments F D Key → Checks → Admission F
  unfolding signature_ok signable_payload plain
  check_signature a checks = elim a.envelope.proof [
    | none ↦ rejected (plain Step.signature (invalid_signature ∷ []) no_proof) checks
    | some proof ↦ elim (signable_payload lib a.envelope) [
      | none ↦ non_finite
      | some payload ↦
          if signature_ok a payload proof
          then admitted (mark Step.signature passed checks)
          else rejected (plain Step.signature (invalid_signature ∷ []) signature_failed) checks
    ]
  ]

  -- 1 to 4. Version, schema, expiry, clock skew, signature.
  unfoldable pub admission : Arguments F D Key → Admission F
  unfolding plain
  admission a =
      let version = mark Step.version passed all_not_run in
      let schema = mark Step.schema passed version in
      let expiry = mark Step.expiry passed schema in
      if not (contains a.envelope.protocol_version supported_versions)
      then rejected (plain Step.version (version_unsupported ∷ []) version_not_supported)
          all_not_run
      else if a.envelope.agent.id == "" || action_value a.envelope.intent.action == ""
      then rejected (plain Step.schema (schema_invalid ∷ []) no_agent_or_action) version
      else if ltb (a.envelope.expires_at + a.clock_skew_seconds * second) a.now
      then rejected (plain Step.expiry (expired_envelope ∷ []) expires_in_past) schema
      else if ltb (a.now + 300 * second) a.envelope.issued_at
      then rejected (plain Step.clock_skew (clock_skew ∷ []) issued_in_future) expiry
      else check_signature a (mark Step.clock_skew passed expiry)
