-- ===== src/Tests/Fixtures.antt =====
-- The data of the examples: a tier 2 envelope that a principal delegated to an agent over one hop,
-- a claim with an observation that agrees with it, and a platform of functions that run.
use asset_embedding_protocol.Prelude.{
  ℕ, ◌*◌, ◌+◌, none, some, [], ◌∷◌, ◌==◌, nat_eq, true, false, string_eq,
}
use asset_embedding_protocol.Prelude.Int.{pos}
use asset_embedding_protocol.Text.{codes, codes_eq}
use asset_embedding_protocol.Models.{
  Boundaries, DelegationLink, CustosEnvelope, Claim, Observation, second, float, text, field, end,
  trade, tier_2, self_reported,
}
use asset_embedding_protocol.Drift.{DriftConfig}
use asset_embedding_protocol.Delegation.{DelegationConfig}
use asset_embedding_protocol.Trust.{TrustEngine}
use asset_embedding_protocol.Revocation.{new_store}
use asset_embedding_protocol.Canonical.{Platform}
use asset_embedding_protocol.Pipeline.{Arguments, Readings, State}

-- the tenth day, in microseconds
abbrev pub noon : ℕ
noon = 864_000 * second

abbrev pub parent_policy : Boundaries ℕ
parent_policy = record {
  allowed_actions = "trade" ∷ "redeem" ∷ [];
  denied_actions = "read" ∷ [];
  monetary_limit = record { per_transaction = 500; per_day = 900; currency = "USD" };
  asset_classes = [];
  geo_restriction = some "US, CA";
  time_window = none;
}

abbrev pub own_policy : Boundaries ℕ
own_policy = record {
  allowed_actions = "trade" ∷ [];
  denied_actions = "read" ∷ [];
  monetary_limit = record { per_transaction = 400; per_day = 800; currency = "USD" };
  asset_classes = "tbill" ∷ [];
  geo_restriction = some "us";
  time_window = some (record { start = noon; end = noon + 60 * second });
}

abbrev pub hop : DelegationLink ℕ
hop = record {
  from_id = "principal";
  to_id = "agent";
  scope = "trade";
  boundary_monotonicity = true;
  boundaries = parent_policy;
  granted_at = noon;
  expires_at = none;
}

abbrev pub envelope : CustosEnvelope ℕ
envelope = record {
  context = "https://custos.dev/v1";
  kind = "CustosEnvelope";
  protocol_version = "1.0.0";
  agent = record {
    id = "agent";
    version = "1";
    runtime = "python";
    attestation = record {
      method = self_reported;
      framework_id = none;
      build_hash = none;
      system_prompt_hash = none;
      registry_signature = none;
    };
  };
  principal = record { kind = "human"; id = "principal"; delegation_chain = hop ∷ [] };
  intent = record { action = trade; target = "token"; parameters = ("amount", float 300) ∷ [] };
  boundaries = own_policy;
  verification_tier = tier_2;
  entropy = "nonce:0123456789abcdef0123456789abcdef";
  ttl = 60;
  issued_at = noon;
  expires_at = noon + 60 * second;
  proof = some (record {
    kind = "Ed25519Signature2020";
    created = noon;
    verification_method = "key";
    proof_purpose = "assertionMethod";
    proof_value = "signed";
  });
}

abbrev pub claim : Claim ℕ
claim = record {
  asset_id = "tbill-1";
  issuer = "issuer";
  underlying_tenor = "3M";
  asset_class = "tbill";
  claimed_nav_per_token = 10000;
  claimed_backing_usd = 10000;
  tokens_outstanding = 10000;
  claimed_yield_bps = 500;
  last_attested_at = noon;
  chain = "evm";
  contract_address = "0x0";
}

abbrev pub observation : Observation
observation = record {
  source = "treasury";
  dataset = "rates";
  tenor = "3M";
  observed_yield_bps = pos 500;
  record_date = 10;
  fetched_at = noon;
  cache_hit = false;
}

abbrev pub drift_config : DriftConfig ℕ
drift_config = record {
  staleness_threshold_hours = 240000;
  drift_threshold = 1000;
  backing_floor = 9900;
  max_observation_age_days = 7;
  zero_yield_abs_tolerance_bps = 5;
  clock_skew_seconds = 5;
}

abbrev pub delegation_config : DelegationConfig
delegation_config = record { clock_skew_seconds = 5; max_delegation_depth = 5 }

-- A signature verifies if it reads "signed".
abbrev pub platform : Platform ℕ ℕ
platform = record {
  dump_envelope = λ e. field "entropy" (text e.entropy) (field "proof" (text "") end);
  dumps = λ fs. 1 ∷ [];
  b64decode = λ s. some (codes s);
  ed25519_verify = λ key raw payload. raw == codes "signed";
  hmac_sha256 = λ key payload. payload;
  compare_digest = λ a b. a == b;
}

abbrev pub arguments : Arguments ℕ ℕ ℕ
arguments = record {
  envelope = envelope;
  public_key = 7;
  claim = some claim;
  observation = some observation;
  drift_config = drift_config;
  delegation_config = delegation_config;
  min_trust_score = 0;
  registered_frameworks = none;
  known_build_hashes = none;
  known_prompt_hashes = none;
  hmac_key = none;
  request_geo = some "us ";
  clock_skew_seconds = 5;
  max_revocation_staleness_ms = 1000;
  now = noon;
}

abbrev pub readings : Readings
readings = record {
  nonce_cutoff_at = 100;
  nonce_stored_at = 101;
  freshness_at = noon;
  agent_revoked_at = noon;
  agent_suspended_at = noon;
  issuer_revoked_at = noon;
  failed_at = noon;
  token = "token-1";
}

abbrev pub engine : TrustEngine ℕ
engine = record { history = []; ledger = [] }

abbrev pub state : State ℕ
state = record { store = new_store noon; trust = engine }
