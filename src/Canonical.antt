-- ===== src/Canonical.antt =====
-- custos_protocol/canonical.py and the verifying half of custos_protocol/crypto.py, over what they
-- take from elsewhere: pydantic's dump of an envelope, `json.dumps`, base64, Ed25519 and HMAC-SHA256.
use asset_embedding_protocol.Prelude.{
  ℕ, String, Bool, false, not, Option, none, some, List, [], ◌∷◌, if◌then◌else◌, nat_eq, string_eq,
  contains,
}
use asset_embedding_protocol.Number.{Float}
use asset_embedding_protocol.Models.{
  Value, null, bool, int, float, text, array, object, Items, nil, cons, Fields, end, field,
  CustosEnvelope,
}

abbrev pub Bytes : Type 0
Bytes = List ℕ

-- Code outside the repository, over the types of the floats and of the public keys.
pub record Platform (F Key : Type 0) : Type 0 where
  -- model_dump(mode="json", by_alias=True)
  pub dump_envelope : CustosEnvelope F → Fields F
  -- json.dumps(…, sort_keys=True, separators=(",", ":")).encode("utf-8")
  pub dumps : Fields F → Bytes
  -- base64.urlsafe_b64decode, `none` where it raises
  pub b64decode : String → Option Bytes
  -- public_key.verify(signature, data), `false` where it raises InvalidSignature
  pub ed25519_verify : Key → Bytes → Bytes → Bool
  -- hmac.new(key, data, hashlib.sha256).digest()
  pub hmac_sha256 : Bytes → Bytes → Bytes
  -- hmac.compare_digest
  pub compare_digest : Bytes → Bytes → Bool

module _ {F : Type 0} ⦃f : Float F⦄ where
  -- `none` is NonFiniteNumberError
  abbrev pub normal_float : F → Option (Value F)
  normal_float x =
      if not (f.is_finite x)
      then none
      else some (if f.is_integer x then int (f.to_int x) else float x)

  abbrev pub both_items : Option (Value F) → Option (Items F) → Option (Items F)
  both_items (some v) (some xs) = some (cons v xs)
  both_items _ _ = none

  abbrev pub both_fields : String → Option (Value F) → Option (Fields F) → Option (Fields F)
  both_fields k (some v) (some xs) = some (field k v xs)
  both_fields k _ _ = none

  unfoldable mutual
    pub normalize_numbers : Value F → Option (Value F)
    normalize_numbers null = some null
    normalize_numbers (bool b) = some (bool b)
    normalize_numbers (int n) = some (int n)
    normalize_numbers (float x) = normal_float x
    normalize_numbers (text s) = some (text s)
    normalize_numbers (array xs) = elim (normalize_items xs) [
      | none ↦ none
      | some ys ↦ some (array ys)
    ]
    normalize_numbers (object xs) = elim (normalize_fields xs) [
      | none ↦ none
      | some ys ↦ some (object ys)
    ]

    pub normalize_items : Items F → Option (Items F)
    normalize_items nil = some nil
    normalize_items (cons v xs) = both_items (normalize_numbers v) (normalize_items xs)

    pub normalize_fields : Fields F → Option (Fields F)
    normalize_fields end = some end
    normalize_fields (field k v xs) = both_fields k (normalize_numbers v) (normalize_fields xs)

  -- {key: value for key, value in data.items() if key not in exclude}
  unfoldable pub excluding : List String → Fields F → Fields F
  excluding exclude end = end
  excluding exclude (field k v xs) =
      let rest = excluding exclude xs in if contains k exclude then rest else field k v rest

  module _ {Key : Type 0} (lib : Platform F Key) where
    unfoldable pub canonical_bytes : Fields F → List String → Option Bytes
    unfolding excluding normalize_fields
    canonical_bytes data' exclude = elim (normalize_fields (excluding exclude data')) [
      | none ↦ none
      | some fs ↦ some (lib.dumps fs)
    ]

    -- get_signable_payload(envelope, exclude={"proof"})
    unfoldable pub signable_payload : CustosEnvelope F → Option Bytes
    unfolding canonical_bytes
    signable_payload e = canonical_bytes (lib.dump_envelope e) ("proof" ∷ [])

module _ {F Key : Type 0} (lib : Platform F Key) where
  -- crypto.verify_signature, which never raises
  unfoldable pub verify_signature : Key → Bytes → String → Bool
  verify_signature key payload signature = elim (lib.b64decode signature) [
    | none ↦ false
    | some raw ↦ lib.ed25519_verify key raw payload
  ]

  -- crypto.hmac_verify
  unfoldable pub hmac_verify : Bytes → Bytes → String → Bool
  hmac_verify key payload signature = elim (lib.b64decode signature) [
    | none ↦ false
    | some raw ↦ lib.compare_digest (lib.hmac_sha256 key payload) raw
  ]
