-- ===== src/Attestation.antt =====
-- custos_protocol/attestation.py: the signed records of a verdict. Random identifiers and the clock's
-- reading are arguments.
pub mod Verified
use asset_embedding_protocol.Prelude.{
  ℕ, String, Option, none, some, List, [], ◌∷◌, Bool, false, ◌==◌, if◌then◌else◌, ◌+◌, ◌*◌, nat_eq,
  string_eq, zero, suc, ◌-◌, ◌/◌, ◌%◌, ◌^◌, ◌≤◌, ◌<◌, ◌≡◌, refl, sym, ap, ◌∙◌, subst, ◌≢◌, ◌↔◌, ◌⊎◌,
  inl, inr, true, not, ◌&&◌, ◌||◌, ◌++◌, map, arith, eq_iff, ltb, leb, ltb→lt, leb→le, tests, Eq,
  Bool-cases, Option-cases, &&_true, length, length-append, is_nonempty, All, All-append, All-map,
  contains, subset, Among, contains-Among, Among-contains, contains-subset, subset-nonempty,
}
use asset_embedding_protocol.Number.{Float}
use asset_embedding_protocol.Text.{concat}
use asset_embedding_protocol.Dict
use asset_embedding_protocol.Dict.{Dict}
use asset_embedding_protocol.Errors.{CustosErrorCode}
use asset_embedding_protocol.Models.{
  AssetScores, Reference, VerificationTier, Proof, second, Value, text, object, Fields, end, field,
  Claim,
}
use asset_embedding_protocol.Canonical.{Platform, Bytes, canonical_bytes, verify_signature}
use asset_embedding_protocol.Envelope.{Signing, sign_data, whole_seconds}

-- class _SignedRecord
pub record SignedRecord : Type 0 where
  pub envelope_hash : String
  pub agent_id : String
  pub asset_id : Option String
  pub issued_at : ℕ
  pub signature_alg : String
  pub canonicalization : String
  pub public_key : String
  pub proof : Option Proof

-- class Attestation, whose verdict is "ALLOW"
pub record AllowRecord (F : Type 0) : Type 0 where
  pub base : SignedRecord
  pub attestation_id : String
  pub action : String
  pub amount : Option F
  pub tier_used : VerificationTier
  pub scores : Option (AssetScores F)
  pub reference : Option Reference
  pub expires_at : ℕ

-- class Denial, whose verdict is "BLOCK"; `detail` is the text that is served
pub record Denial (F : Type 0) : Type 0 where
  pub base : SignedRecord
  pub denial_id : String
  pub errors : List CustosErrorCode
  pub detail : String
  pub scores : Option (AssetScores F)
  pub reference : Option Reference

-- Attestation | Denial
pub data VerdictRecord (F : Type 0) : Type 0 where
  allow : AllowRecord F → VerdictRecord F
  block : Denial F → VerdictRecord F

-- record.model_copy(update={"proof": proof})
unfoldable pub with_proof : {F : Type 0} → Proof → VerdictRecord F → VerdictRecord F
with_proof p (allow r) = allow (record r { base = record (r.base) { proof = some p } })
with_proof p (block r) = block (record r { base = record (r.base) { proof = some p } })

unfoldable pub base_of : {F : Type 0} → VerdictRecord F → SignedRecord
base_of (allow r) = r.base
base_of (block r) = r.base

-- d.get(key) of a parsed JSON object
unfoldable pub get_field : {F : Type 0} → String → Fields F → Option (Value F)
get_field key end = none
get_field key (field k v fs) = if k == key then some v else get_field key fs

-- the value under "proof_value", where "proof" is an object that has one
unfoldable pub proof_value_of : {F : Type 0} → Option (Value F) → Option (Value F)
unfolding get_field
proof_value_of (some (object fs)) = get_field "proof_value" fs
proof_value_of v = none

-- How verify_record ends: it returns, or raises NonFiniteNumberError, or raises AttributeError for a
-- proof_value that is no text.
pub data RecordCheck : Type 0 where
  checked_as : Bool → RecordCheck
  non_finite_number not_a_text : RecordCheck

module _ {F Key : Type 0} (lib : Platform F Key) where
  -- the signature check of a proof_value over a payload
  unfoldable pub verify_value : Bytes → Key → Value F → RecordCheck
  unfolding verify_signature
  verify_value payload key (text s) = checked_as (verify_signature lib key payload s)
  verify_value payload key v = not_a_text

module _ {F Key : Type 0} ⦃f : Float F⦄ (lib : Platform F Key) where
  -- verify_record
  unfoldable pub verify_record : Fields F → Key → RecordCheck
  unfolding verify_value proof_value_of get_field canonical_bytes
  verify_record data' key = elim (proof_value_of (get_field "proof" data')) [
    | none ↦ checked_as false
    | some v ↦ elim (canonical_bytes lib data' ("proof" ∷ [])) [
      | none ↦ non_finite_number
      | some payload ↦ verify_value lib payload key v
    ]
  ]

-- What RecordSigner calls besides the platform of the envelope: the dump of a record, the text of a
-- public key, and the JSON object of a proof.
pub record RecordPlatform (F PrivateKey : Type 0) : Type 0 where
  pub dump_record : VerdictRecord F → Fields F
  pub public_key_b64 : PrivateKey → String
  pub signing : Signing PrivateKey

module _ {F Key PrivateKey : Type 0} ⦃f : Float F⦄ (lib : Platform F Key)
    (r : RecordPlatform F PrivateKey) where
  -- RecordSigner._attach_proof, `none` where NonFiniteNumberError is raised
  unfoldable pub attach_proof : PrivateKey → VerdictRecord F → Option (VerdictRecord F)
  unfolding with_proof base_of sign_data canonical_bytes
  attach_proof key x = elim (canonical_bytes lib (r.dump_record x) ("proof" ∷ [])) [
    | none ↦ none
    | some payload ↦ some (
        with_proof
          (record {
            kind = "Ed25519Signature2020";
            created = (base_of x).issued_at;
            verification_method = "custos-gateway#keys-1";
            proof_purpose = "assertionMethod";
            proof_value = sign_data lib r.signing key payload;
          })
          x)
  ]

  -- the fields that both kinds of record share
  unfoldable pub new_record : PrivateKey → String → String → Option String → ℕ → SignedRecord
  unfolding whole_seconds
  new_record key envelope_hash agent asset now = record {
    envelope_hash = envelope_hash;
    agent_id = agent;
    asset_id = asset;
    issued_at = whole_seconds now;
    signature_alg = "Ed25519";
    canonicalization = "custos/canonical-v1";
    public_key = r.public_key_b64 key;
    proof = none;
  }

  -- RecordSigner.sign_attestation of a signer with a key and a time to live; `hex` is uuid4().hex
  unfoldable pub sign_attestation :
      PrivateKey
      → ℕ
      → String
      → String
      → Option String
      → String
      → Option F
      → VerificationTier
      → Option (AssetScores F)
      → Option Reference
      → ℕ
      → String
      → Option (VerdictRecord F)
  unfolding attach_proof new_record whole_seconds
  sign_attestation key ttl_seconds envelope_hash agent asset action amount tier scores reference now
        hex =
      attach_proof key (
        allow (record {
          base = new_record key envelope_hash agent asset now;
          attestation_id = concat "att_" hex;
          action = action;
          amount = amount;
          tier_used = tier;
          scores = scores;
          reference = reference;
          expires_at = whole_seconds now + ttl_seconds * second;
        }))

  -- RecordSigner.sign_denial
  unfoldable pub sign_denial :
      PrivateKey
      → String
      → String
      → Option String
      → List CustosErrorCode
      → String
      → Option (AssetScores F)
      → Option Reference
      → ℕ
      → String
      → Option (VerdictRecord F)
  unfolding attach_proof new_record
  sign_denial key envelope_hash agent asset errors detail scores reference now hex =
      attach_proof key (
        block (record {
          base = new_record key envelope_hash agent asset now;
          denial_id = concat "den_" hex;
          errors = errors;
          detail = detail;
          scores = scores;
          reference = reference;
        }))
