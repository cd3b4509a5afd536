-- ===== src/Tests/Identities.antt =====
-- Examples of a passport, of an envelope made from it and of its signature.
use asset_embedding_protocol.Prelude.{
  ℕ, ◌≡◌, refl, none, some, [], ◌∷◌, arith, if◌then◌else◌, ◌==◌, nat_eq, string_eq, contains,
}
use asset_embedding_protocol.Dict.{get, Dict}
use asset_embedding_protocol.Number.Fixed.{fixed, fixed_laws}
use asset_embedding_protocol.Text.{codes_eq, codes_beq}
use asset_embedding_protocol.Models.{
  CustosEnvelope, monetary_limit_valid, amount_is_non_negative, bounded_span, passed, trade, float,
  Value, tier_1,
}
use asset_embedding_protocol.Canonical.{
  Platform, excluding, signable_payload, canonical_bytes, normalize_fields, normalize_numbers,
}
use asset_embedding_protocol.Delegation.{check_delegation}
use asset_embedding_protocol.Passport.{
  PassportArguments, AgentPassport, create, identity_of, own_hop, boundaries_of, principal_id_of,
}
use asset_embedding_protocol.Envelope.{
  Signing, create_envelope, draft, constructible, whole_seconds, sign_envelope, proof_over,
  sign_data, select_tier, value_moving, escalates,
}
use asset_embedding_protocol.Envelope.Own.{create_envelope-check_delegation}
use asset_embedding_protocol.Envelope.Signed.{IsSound, sign_envelope-check_signature}
use asset_embedding_protocol.Pipeline.{
  Arguments, check_signature, admitted, mark, all_not_run, Step,
}
use asset_embedding_protocol.Tests.Fixtures.{noon, delegation_config, arguments, platform}
use asset_embedding_protocol.Boundaries.{numeric}

abbrev passport_arguments : PassportArguments ℕ
passport_arguments = record {
  domain = "example.org";
  agent_name = some "bot";
  version = "1.0.0";
  principal_id = none;
  principal_type = "organization";
  allowed_actions = "trade" ∷ [];
  denied_actions = [];
  monetary_limit_per_txn = 1000;
  monetary_limit_per_day = 0;
  currency = "USD";
  asset_classes = [];
  geo_restriction = some "us,ca";
  framework_id = none;
  system_prompt_hash = none;
}

abbrev pub passport : AgentPassport ℕ ℕ ℕ
passport = record {
  agent = identity_of passport_arguments "0badcafe";
  principal = record {
    kind = "organization";
    id = principal_id_of passport_arguments;
    delegation_chain = own_hop passport_arguments "0badcafe" noon ∷ [];
  };
  boundaries = boundaries_of passport_arguments;
  public_key = 7;
  private_key = some 7;
}

created : create passport_arguments "0badcafe" noon 7 7 ≡ some passport
unfolding create monetary_limit_valid boundaries_of
created = refl

abbrev pub parameters : Dict (Value ℕ)
parameters = ("amount", float 300) ∷ []

abbrev made : CustosEnvelope ℕ
made = draft passport trade "token" parameters tier_1 60 noon "0123456789abcdef0123456789abcdef"

drafted :
    create_envelope passport trade "token" parameters none 60 noon
      "0123456789abcdef0123456789abcdef"
    ≡ some made
unfolding create_envelope draft select_tier value_moving escalates numeric constructible
    amount_is_non_negative bounded_span get whole_seconds boundaries_of
drafted = refl

create_envelope-check_delegation_example : check_delegation made delegation_config noon ≡ none
create_envelope-check_delegation_example =
    create_envelope-check_delegation fixed_laws passport_arguments "0badcafe" noon 7 7 passport
      trade "token" parameters none 60 noon "0123456789abcdef0123456789abcdef" made
      delegation_config noon created drafted (omega arith) (omega arith)

-- A key has one signature, and one text for it.
abbrev pub signing : Signing ℕ
signing = record { ed25519_sign = λ key payload. key ∷ []; b64encode = λ raw. "signature" }

abbrev pub signer : Platform ℕ ℕ
signer = record platform {
  b64decode = λ s. if s == "signature" then some (7 ∷ []) else none;
  ed25519_verify = λ key raw payload. raw == key ∷ [];
}

sound : IsSound signer signing 7 7
unfolding sign_data excluding contains codes_beq
sound = record { verifies = λ data'. refl; decodes = λ data'. refl; apart = λ e p. refl }

abbrev signed_arguments : Arguments ℕ ℕ ℕ
signed_arguments = record arguments {
  envelope = record made { proof = some (proof_over signer signing made 7 "" noon (1 ∷ [])) };
}

signed : sign_envelope signer signing made 7 "" noon ≡ some signed_arguments.envelope
unfolding sign_envelope signable_payload canonical_bytes excluding contains normalize_fields
    normalize_numbers draft
signed = refl

sign_envelope-check_signature_example :
    (signable_payload signer signed_arguments.envelope ≡ signable_payload signer made)
    × (check_signature signer signed_arguments all_not_run
        ≡ admitted (mark Step.signature passed all_not_run))
sign_envelope-check_signature_example =
    sign_envelope-check_signature signer signing sound made "" noon signed_arguments all_not_run
      signed refl refl
