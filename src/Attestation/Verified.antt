-- ===== src/Attestation/Verified.antt =====
-- A record that the gateway signed verifies under the pinned key.
use asset_embedding_protocol.Prelude.{
  ◌≡◌, some, none, [], ◌∷◌, true, inl, inr, ap, Option-cases, arith, subst, nat_eq, string_eq,
}
use asset_embedding_protocol.Number.{Float}
use asset_embedding_protocol.Models.{Proof, text}
use asset_embedding_protocol.Canonical.{
  normalize_fields, Platform, Bytes, excluding, canonical_bytes, verify_signature,
}
use asset_embedding_protocol.Envelope.{sign_data}
use asset_embedding_protocol.Attestation.{
  RecordPlatform, VerdictRecord, checked_as, attach_proof, with_proof, base_of, verify_record,
  verify_value, proof_value_of, get_field,
}

module _ {F Key PrivateKey : Type 0} ⦃f : Float F⦄ (lib : Platform F Key)
    (r : RecordPlatform F PrivateKey) where
  -- What is documented of the libraries: a signature verifies under the key's public half, base64
  -- decodes what it made of one, and the dump of a record has the proof under "proof" and nowhere else.
  pub record IsFaithful (public_key : Key) (key : PrivateKey) : Type 0 where
    pub verifies :
        (data' : Bytes)
        → lib.ed25519_verify public_key (r.signing.ed25519_sign key data') data' ≡ true
    pub decodes :
        (data' : Bytes)
        → lib.b64decode (sign_data lib r.signing key data')
          ≡ some (r.signing.ed25519_sign key data')
    pub apart :
        (x : VerdictRecord F) (p : Proof)
        → excluding ("proof" ∷ []) (r.dump_record (with_proof p x))
          ≡ excluding ("proof" ∷ []) (r.dump_record x)
    pub present :
        (x : VerdictRecord F) (p : Proof)
        → proof_value_of (get_field "proof" (r.dump_record (with_proof p x)))
          ≡ some (text p.proof_value)

  module _ {public_key : Key} {key : PrivateKey} (faithful : IsFaithful public_key key) where
    payload_kept :
        (x : VerdictRecord F) (p : Proof)
        → canonical_bytes lib (r.dump_record (with_proof p x)) ("proof" ∷ [])
          ≡ canonical_bytes lib (r.dump_record x) ("proof" ∷ [])
    unfolding canonical_bytes
    payload_kept x p =
        ap (λ y. elim (normalize_fields y) [ none ↦ none | some fs ↦ some (lib.dumps fs) ])
          (faithful.apart x p)

    signature_holds :
        (payload : Bytes)
        → verify_value {F = F} lib payload public_key (text (sign_data lib r.signing key payload))
          ≡ checked_as true
    unfolding verify_value verify_signature
    signature_holds payload = ground (arith, faithful.decodes payload, faithful.verifies payload)

    -- A record of either verdict that the signer returns verifies, as it is served, under the public
    -- half of the signer's key. The libraries are faithful for the key pair.
    pub attach_proof-verify_record :
        (x y : VerdictRecord F)
        → attach_proof lib r key x ≡ some y
        → verify_record lib (r.dump_record y) public_key ≡ checked_as true
    unfolding attach_proof verify_record
    attach_proof-verify_record x y h =
        elim (Option-cases (canonical_bytes lib (r.dump_record x) ("proof" ∷ []))) [
          | inl wild ↦ absurd (ground arith)
          | inr (payload, p) ↦
              let q : Proof = record {
                kind = "Ed25519Signature2020";
                created = (base_of x).issued_at;
                verification_method = "custos-gateway#keys-1";
                proof_purpose = "assertionMethod";
                proof_value = sign_data lib r.signing key payload;
              } in
              let made : with_proof q x ≡ y = ground (arith, p, h) in
              subst (λ z. verify_record lib (r.dump_record z) public_key ≡ checked_as true) made
                (ground (arith, payload_kept x q, p, faithful.present x q, signature_holds payload))
        ]
