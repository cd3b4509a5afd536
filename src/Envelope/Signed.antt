-- ===== src/Envelope/Signed.antt =====
-- What `sign_envelope` signs, the pipeline's signature check accepts.
use asset_embedding_protocol.Prelude.{
  ℕ, ◌≡◌, some, none, String, ap, ◌∙◌, inl, inr, true, Option, [], ◌∷◌, arith, nat_eq, string_eq,
  Option-cases,
}
use asset_embedding_protocol.Number.{Float}
use asset_embedding_protocol.Models.{CustosEnvelope, Proof, passed}
use asset_embedding_protocol.Canonical.{
  normalize_fields, Platform, Bytes, excluding, signable_payload, canonical_bytes, verify_signature,
}
use asset_embedding_protocol.Envelope.{Signing, sign_envelope, proof_over, sign_data}
use asset_embedding_protocol.Pipeline.{
  Arguments, Checks, check_signature, signature_ok, admitted, mark, Step,
}

module _ {F Key PrivateKey : Type 0} ⦃f : Float F⦄ (lib : Platform F Key)
    (s : Signing PrivateKey) where
  -- What is documented of the two libraries: a signature verifies under the key's public half, base64
  -- decodes what it made of one, and the dump of an envelope has the proof under "proof" and nowhere else.
  pub record IsSound (public_key : Key) (key : PrivateKey) : Type 0 where
    pub verifies :
        (data' : Bytes) → lib.ed25519_verify public_key (s.ed25519_sign key data') data' ≡ true
    pub decodes :
        (data' : Bytes)
        → lib.b64decode (sign_data lib s key data') ≡ some (s.ed25519_sign key data')
    pub apart :
        (e : CustosEnvelope F) (p : Option Proof)
        → excluding ("proof" ∷ []) (lib.dump_envelope (record e { proof = p }))
          ≡ excluding ("proof" ∷ []) (lib.dump_envelope e)

  module _ {public_key : Key} {key : PrivateKey} (sound : IsSound public_key key) where
    payload_stable :
        (e : CustosEnvelope F) (p : Option Proof)
        → signable_payload lib (record e { proof = p }) ≡ signable_payload lib e
    unfolding signable_payload canonical_bytes
    payload_stable e p =
        ap (λ x. elim (normalize_fields x) [ none ↦ none | some fs ↦ some (lib.dumps fs) ])
          (sound.apart e p)

    verify_signature-sign_data :
        (payload : Bytes)
        → verify_signature lib public_key payload (sign_data lib s key payload) ≡ true
    unfolding verify_signature sign_data
    verify_signature-sign_data payload =
        ground (arith, sound.decodes payload, sound.verifies payload)

    signed-payload :
        (e signed : CustosEnvelope F) (method : String) (now : ℕ)
        → sign_envelope lib s e key method now ≡ some signed
        → (payload : Bytes) × (signable_payload lib e ≡ some payload)
          × (signed ≡ record e { proof = some (proof_over lib s e key method now payload) })
    unfolding sign_envelope
    signed-payload e signed method now h = elim (Option-cases (signable_payload lib e)) [
      | inl wild ↦ absurd (ground arith)
      | inr (payload, p) ↦ (payload, p, ground arith)
    ]

    -- An envelope that `sign_envelope` returns has the payload it was signed over, and `verify_intent`
    -- accepts its signature at step 4, under the public half of the key where no shared key is given.
    -- The platform is sound for the key pair.
    pub sign_envelope-check_signature :
        {D : Type 0} (e : CustosEnvelope F) (method : String) (now : ℕ) (a : Arguments F D Key)
        (c : Checks)
        → sign_envelope lib s e key method now ≡ some a.envelope
        → a.public_key ≡ public_key
        → a.hmac_key ≡ none
        → (signable_payload lib a.envelope ≡ signable_payload lib e)
          × (check_signature lib a c ≡ admitted (mark Step.signature passed c))
    unfolding check_signature signature_ok proof_over
    sign_envelope-check_signature e method now a c h same shared =
        let (payload, p, made) = signed-payload e a.envelope method now h in
        let proof = proof_over lib s e key method now payload in
        let stable : signable_payload lib a.envelope ≡ signable_payload lib e =
          ap (signable_payload lib) made ∙ payload_stable e (some proof) in
        (stable, ground (arith, stable, p, made, same, shared, verify_signature-sign_data payload))
