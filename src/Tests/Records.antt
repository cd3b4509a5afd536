-- ===== src/Tests/Records.antt =====
-- An example of a signed denial.
use asset_embedding_protocol.Prelude.{
  ℕ, ◌≡◌, refl, none, some, [], ◌∷◌, Option, contains, true, nat_eq, string_eq,
}
use asset_embedding_protocol.Number.Fixed.{fixed}
use asset_embedding_protocol.Text.{codes_beq}
use asset_embedding_protocol.Errors.{replay_detected}
use asset_embedding_protocol.Models.{Proof, text, field, end, object, null, Value}
use asset_embedding_protocol.Canonical.{
  excluding, canonical_bytes, normalize_fields, normalize_numbers,
}
use asset_embedding_protocol.Envelope.{sign_data}
use asset_embedding_protocol.Attestation.{
  RecordPlatform, VerdictRecord, block, allow, base_of, checked_as, attach_proof, with_proof,
  verify_record, proof_value_of, get_field, new_record, Denial,
}
use asset_embedding_protocol.Attestation.Verified.{IsFaithful, attach_proof-verify_record}
use asset_embedding_protocol.Tests.Identities.{signer, signing}

abbrev served_proof : Option Proof → Value ℕ
served_proof none = null
served_proof (some p) = object (field "proof_value" (text p.proof_value) end)

abbrev pub records : RecordPlatform ℕ ℕ
records = record {
  dump_record = λ x.
      field "agent_id" (text (base_of x).agent_id)
        (field "proof" (served_proof (base_of x).proof) end);
  public_key_b64 = λ k. "key";
  signing = signing;
}

faithful : IsFaithful signer records 7 7
unfolding sign_data excluding contains get_field proof_value_of with_proof base_of codes_beq
faithful = record {
  verifies = λ data'. refl;
  decodes = λ data'. refl;
  apart = apart;
  present = present;
}
  where
    apart :
        (x : VerdictRecord ℕ) (p : Proof)
        → excluding ("proof" ∷ []) (records.dump_record (with_proof p x))
          ≡ excluding ("proof" ∷ []) (records.dump_record x)
    apart (allow r) p = refl
    apart (block r) p = refl

    present :
        (x : VerdictRecord ℕ) (p : Proof)
        → proof_value_of (get_field "proof" (records.dump_record (with_proof p x)))
          ≡ some (text p.proof_value)
    present (allow r) p = refl
    present (block r) p = refl

abbrev unsigned : Denial ℕ
unsigned = record {
  base = new_record signer records 7 "hash" "agent" none 1_000_001;
  denial_id = "den_0";
  errors = replay_detected ∷ [];
  detail = "";
  scores = none;
  reference = none;
}

abbrev denial_proof : Proof
denial_proof = record {
  kind = "Ed25519Signature2020";
  created = (base_of (block unsigned)).issued_at;
  verification_method = "custos-gateway#keys-1";
  proof_purpose = "assertionMethod";
  proof_value = sign_data signer signing 7 (1 ∷ []);
}

attached :
    attach_proof signer records 7 (block unsigned) ≡ some (with_proof denial_proof (block unsigned))
unfolding attach_proof canonical_bytes excluding contains normalize_fields normalize_numbers base_of
    new_record
attached = refl

attach_proof-verify_record_example :
    verify_record signer (records.dump_record (with_proof denial_proof (block unsigned))) 7
    ≡ checked_as true
attach_proof-verify_record_example =
    attach_proof-verify_record signer records faithful (block unsigned)
      (with_proof denial_proof (block unsigned)) attached
