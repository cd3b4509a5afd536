-- ===== src/Gateway/Site.antt =====
-- gateway/server.py: what the server's process is configured with, holds and answers.
use asset_embedding_protocol.Prelude.{ℕ, String, Bool, Option, List, nat_eq, string_eq}
use asset_embedding_protocol.Dict.{Dict}
use asset_embedding_protocol.Errors.{CustosErrorCode}
use asset_embedding_protocol.Models.{Claim, Observation, Value, Fields, AgentHistory}
use asset_embedding_protocol.Drift.{DriftConfig, AssetTruth}
use asset_embedding_protocol.Canonical.{Platform, Bytes}
use asset_embedding_protocol.Pipeline.{State, Readings, Detail}
use asset_embedding_protocol.Attestation.{VerdictRecord, RecordPlatform}
use asset_embedding_protocol.Oracle.Feed.{Reader}
use asset_embedding_protocol.Oracle.Treasury.{TreasuryOracle, Client, Clocks}
use asset_embedding_protocol.Gateway.{AttestationRegistry}

-- What `client.post` to a downstream service does: a status with its JSON, if it is JSON, and its text;
-- an httpx.HTTPError; or another exception.
pub data Posted (F : Type 0) : Type 0 where
  reply : ℕ → Option (Value F) → String → Posted F
  http_error other_error : Posted F

-- The module's constants, and the code outside the repository that it calls.
pub record Site (F D Key PrivateKey S : Type 0) : Type 0 where
  pub platform : Platform F Key
  pub records : RecordPlatform F PrivateKey
  pub reader : Reader F
  pub client : Client S
  -- client.post, of a URL, a JSON body and the header X-Custos-Attestation
  pub post : String → Fields F → String → S → Posted F × S
  -- json.dumps(…, separators=(",", ":"), ensure_ascii=True) and base64.b64encode of it
  pub header_of : Fields F → String
  -- str(value)
  pub str : Value F → String
  -- hashlib.sha256(payload).hexdigest()
  pub sha256_hex : Bytes → String
  -- the text of a detail
  pub show_detail : Detail → String
  -- _decode_public_key and hmac.compare_digest
  pub b64_to_public_key : String → Option Key
  pub compare : String → String → Option Bool
  -- the texts of a list, each once, in the order in which Python iterates over their set
  pub set_order : List String → List String
  pub signer_key : PrivateKey
  pub attestation_ttl_seconds : ℕ
  pub admin_api_key : Option String
  pub min_trust_score : F
  pub drift_config : DriftConfig F

-- The objects of the module that change: `revocations` and `trust` are in `state`.
pub record Gateway (F D Key S : Type 0) : Type 0 where
  pub claims : Dict (Claim D)
  pub oracle : TreasuryOracle S
  pub state : State F
  pub agent_keys : Dict Key
  pub attestations : AttestationRegistry

-- What one request reads from the clocks and from `uuid4`; a synchronization asks the oracle once for
-- each tenor.
pub record Moment : Type 0 where
  pub readings : Readings
  pub now : ℕ
  pub oracle : Clocks
  pub sync_clocks : String → Clocks
  pub signed_at : ℕ
  pub hex : String
  pub revoked_at : ℕ
  pub suspended_from : ℕ
  pub synced_at : ℕ
  pub recorded_at : ℕ

-- what `forward` returns: a status and the JSON or the text of a body
pub data Payload (F : Type 0) : Type 0 where
  json_body : Value F → Payload F
  text_body : String → Payload F

-- class TrustScore
pub record TrustScore (F : Type 0) : Type 0 where
  pub agent_id : String
  pub score : F
  pub history : AgentHistory

-- The contents of an answer.
pub data Body (F D : Type 0) : Type 0 where
  verdict : VerdictRecord F → Body F D
  forwarded : VerdictRecord F → ℕ → Payload F → Body F D
  unreachable : VerdictRecord F → CustosErrorCode → Body F D
  confirmed : String → Body F D
  hashes_registered : Option String → Option String → Body F D
  trust_score : TrustScore F → Body F D
  assets : List (Claim D) → Body F D
  asset_report : Claim D → Option Observation → AssetTruth F → Body F D
  public_key : String → Body F D
  health_report : Option Observation → Body F D
  sync_error : CustosErrorCode → Body F D
  synced : Dict Observation → Dict ℕ → Body F D

-- An exception that no handler of the server catches, which FastAPI answers with a bare 500.
pub data Crash : Type 0 where
  non_finite_number index_error overflow_error downstream_error value_error validation_error : Crash
  key_error type_error : Crash

pub data Response (F D : Type 0) : Type 0 where
  rendered : ℕ → Body F D → Response F D
  http_exception : ℕ → Response F D
  crashed : Crash → Response F D
