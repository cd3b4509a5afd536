-- ===== src/Envelope.antt =====
-- custos_protocol/envelope.py: the tier for an action, the making and the signing of an envelope.
pub mod Own
pub mod Signed
use asset_embedding_protocol.Prelude.{
  ℕ, String, Option, none, some, List, [], ◌∷◌, true, false, Bool, ◌&&◌, ◌||◌, ◌+◌, ◌*◌, ◌/◌, leb,
  if◌then◌else◌, zero, suc, ◌-◌, ◌%◌, ◌^◌, ◌≤◌, ◌<◌, ◌≡◌, refl, sym, ap, ◌∙◌, subst, ◌≢◌, ◌↔◌, ◌⊎◌,
  inl, inr, not, ◌++◌, map, arith, eq_iff, ltb, ltb→lt, leb→le, tests, Eq, ◌==◌, nat_eq, string_eq,
  Bool-cases, Option-cases, &&_true, length, length-append, is_nonempty, All, All-append, All-map,
  contains, subset, Among, contains-Among, Among-contains, contains-subset, subset-nonempty,
}
use asset_embedding_protocol.Number.{Float}
use asset_embedding_protocol.Text.{concat}
use asset_embedding_protocol.Dict.{Dict, get}
use asset_embedding_protocol.Models.{
  Action, read, VerificationTier, tier_0, tier_1, tier_2, Boundaries, Value, Intent, CustosEnvelope,
  Proof, second, amount_is_non_negative, bounded_span,
}
use asset_embedding_protocol.Boundaries.{numeric}
use asset_embedding_protocol.Canonical.{Platform, Bytes, signable_payload}
use asset_embedding_protocol.Passport.{AgentPassport}

-- action in VALUE_MOVING_ACTIONS
unfoldable pub value_moving : Action → Bool
value_moving read = false
value_moving a = true

-- a datetime with its microseconds set to 0
unfoldable pub whole_seconds : ℕ → ℕ
whole_seconds t = t / second * second

-- The signing half of crypto.py's platform: Ed25519 and urlsafe base64.
pub record Signing (PrivateKey : Type 0) : Type 0 where
  pub ed25519_sign : PrivateKey → Bytes → Bytes
  pub b64encode : Bytes → String

-- tier or select_tier(…)
abbrev tier_or : Option VerificationTier → Option VerificationTier → Option VerificationTier
tier_or none selected = selected
tier_or (some tier) selected = some tier

module _ {F : Type 0} ⦃f : Float F⦄ where
  -- amount is not None and amount / per_transaction > _ESCALATION_RATIO, where there is a limit
  unfoldable pub escalates : Option F → F → Bool
  escalates none limit = false
  escalates (some amount) limit = f.lt f.nought limit && f.lt (f.literal 5 1) (f.div amount limit)

  -- the tier, `none` where the conversion of the amount raises OverflowError
  unfoldable pub select_tier :
      Action → Dict (Value F) → Boundaries F → Bool → Bool → Option VerificationTier
  unfolding value_moving escalates numeric
  select_tier action parameters boundaries cross_org first_contact =
      if not (value_moving action)
      then some tier_0
      else if cross_org || first_contact
      then some tier_2
      else elim (numeric (get "amount" parameters)) [
        | none ↦ none
        | some amount ↦
            if escalates amount boundaries.monetary_limit.per_transaction
            then some tier_2
            else some tier_1
      ]

  -- the constraints that the constructors of the intent and of the envelope check
  unfoldable pub constructible : CustosEnvelope F → Bool
  unfolding amount_is_non_negative bounded_span
  constructible e =
      amount_is_non_negative (get "amount" e.intent.parameters)
      && (leb 1 e.ttl && leb e.ttl 86400)
      && bounded_span e

  module _ {Key PrivateKey : Type 0} where
    -- the envelope before its constraints are checked; `hex` is secrets.token_hex(16)
    unfoldable pub draft :
        AgentPassport F Key PrivateKey
        → Action
        → String
        → Dict (Value F)
        → VerificationTier
        → ℕ
        → ℕ
        → String
        → CustosEnvelope F
    unfolding whole_seconds
    draft passport action target parameters tier ttl now hex = record {
      context = "https://custos.protocol/v1";
      kind = "CustosEnvelope";
      protocol_version = "1.0.0";
      agent = passport.agent;
      principal = passport.principal;
      intent = record { action = action; target = target; parameters = parameters };
      boundaries = passport.boundaries;
      verification_tier = tier;
      entropy = concat "nonce:" hex;
      ttl = ttl;
      issued_at = whole_seconds now;
      expires_at = whole_seconds now + ttl * second;
      proof = none;
    }

    -- create_envelope, `none` where a constructor or the choice of the tier raises
    unfoldable pub create_envelope :
        AgentPassport F Key PrivateKey
        → Action
        → String
        → Dict (Value F)
        → Option VerificationTier
        → ℕ
        → ℕ
        → String
        → Option (CustosEnvelope F)
    unfolding draft constructible select_tier
    create_envelope passport action target parameters tier ttl now hex =
        elim (tier_or tier (select_tier action parameters passport.boundaries false false)) [
          | none ↦ none
          | some selected ↦
              let e = draft passport action target parameters selected ttl now hex in
              if constructible e then some e else none
        ]

  module _ {Key PrivateKey : Type 0} (lib : Platform F Key) (s : Signing PrivateKey) where
    -- crypto.sign_data
    unfoldable pub sign_data : PrivateKey → Bytes → String
    sign_data key payload = s.b64encode (s.ed25519_sign key payload)

    -- the proof over a payload
    unfoldable pub proof_over : CustosEnvelope F → PrivateKey → String → ℕ → Bytes → Proof
    unfolding sign_data whole_seconds
    proof_over e key method now payload = record {
      kind = "Ed25519Signature2020";
      created = whole_seconds now;
      verification_method = if method == "" then concat e.principal.id "#keys-1" else method;
      proof_purpose = "assertionMethod";
      proof_value = sign_data key payload;
    }

    -- sign_envelope, `none` where the payload raises NonFiniteNumberError
    unfoldable pub sign_envelope :
        CustosEnvelope F → PrivateKey → String → ℕ → Option (CustosEnvelope F)
    unfolding proof_over
    sign_envelope e key method now = elim (signable_payload lib e) [
      | none ↦ none
      | some payload ↦ some (record e { proof = some (proof_over e key method now payload) })
    ]
