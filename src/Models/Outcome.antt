-- ===== src/Models/Outcome.antt =====
-- models.py: what a verification reports.
use asset_embedding_protocol.Prelude.{ℕ, String, Bool, Option, nat_eq, string_eq}
use asset_embedding_protocol.Models.Policy.{RevocationStatus}

pub record RevocationCheck (F : Type 0) : Type 0 where
  pub status : RevocationStatus
  pub freshness_ms : F
  pub max_staleness_ms : ℕ
  pub stale : Bool

pub record AgentHistory : Type 0 where
  pub agent_id : String
  pub total_intents : ℕ
  pub successful_intents : ℕ
  pub boundary_violations : ℕ
  pub revocation_count : ℕ
  pub attestation_changes : ℕ
  pub delegation_depth : ℕ
  pub first_seen : Option ℕ
  pub last_seen : Option ℕ
