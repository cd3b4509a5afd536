-- ===== src/Gateway/Admin.antt =====
-- gateway/server.py: the routes that an administrator calls, after `require_admin` has let them pass.
use asset_embedding_protocol.Prelude.{
  String, Option, none, some, ◌==◌, nat_eq, string_eq, if◌then◌else◌, ◌||◌,
}
use asset_embedding_protocol.Dict
use asset_embedding_protocol.Gateway.{registered, malformed_key, agent_already_registered}
use asset_embedding_protocol.Revocation.{agent, issuer}
use asset_embedding_protocol.Prelude.Int.{ℤ}
use asset_embedding_protocol.Gateway.Site.{
  Gateway, Moment, Response, rendered, http_exception, crashed, confirmed, hashes_registered,
  value_error, overflow_error,
}
use asset_embedding_protocol.Boundaries.{truthy}
use asset_embedding_protocol.Gateway.{
  register_prompt_hash, register_build_hash, register, AttestationRegistry,
}
use asset_embedding_protocol.Revocation.{suspend, reinstate, SubjectType, revoke, RevocationStore}
use asset_embedding_protocol.Trust.{record_revocation, TrustEngine}

-- class AttestationHashRegistration
pub record AttestationHashRegistration : Type 0 where
  pub framework_id : Option String
  pub build_hash : Option String
  pub agent_id : Option String
  pub system_prompt_hash : Option String

-- class RevocationRequest
pub record RevocationRequest : Type 0 where
  pub subject_id : String
  pub subject_type : SubjectType
  pub action : String
  pub reason : String
  pub duration_seconds : ℤ

-- two texts, if both are there and not empty
unfoldable pub both : Option String → Option String → Option (String × String)
unfolding truthy
both a b = elim (truthy a) [
  | none ↦ none
  | some x ↦ elim (truthy b) [ none ↦ none | some y ↦ some (x, y) ]
]

-- the two writes of register_attestation_hash
unfoldable pub write_build : Option (String × String) → AttestationRegistry → AttestationRegistry
unfolding register_build_hash
write_build none r = r
write_build (some (framework, hash)) r = register_build_hash framework hash r

unfoldable pub write_prompt : Option (String × String) → AttestationRegistry → AttestationRegistry
unfolding register_prompt_hash
write_prompt none r = r
write_prompt (some (agent_id, hash)) r = register_prompt_hash agent_id hash r

-- the id that a write reports
abbrev pub reported : Option (String × String) → Option String
reported none = none
reported (some (x, y)) = some x

-- revocations.suspend or revocations.revoke; `none` where the first raises OverflowError, and where the
-- action is neither
unfoldable pub apply_action : Moment → RevocationRequest → RevocationStore → Option RevocationStore
unfolding suspend revoke
apply_action m q s =
    if q.action == "suspend"
    then suspend q.subject_id q.subject_type q.duration_seconds q.reason "admin" "global"
        m.revoked_at m.suspended_from m.synced_at s
    else if q.action == "revoke"
    then some
        (revoke q.subject_id q.subject_type q.reason "admin" "global" m.revoked_at m.synced_at s)
    else none

-- the trust engine after the revocation of a subject, which counts for an agent
unfoldable pub note_revocation :
    {F : Type 0} → Moment → SubjectType → String → TrustEngine F → TrustEngine F
unfolding record_revocation
note_revocation m agent subject t = record_revocation subject m.recorded_at t
note_revocation m issuer subject t = t

module _ {F D Key S : Type 0} where
  -- register_agent; only AgentAlreadyRegistered is caught
  unfoldable pub register_agent :
      (String → Option Key) → String → String → Gateway F D Key S → Response F D × Gateway F D Key S
  unfolding register
  register_agent decode agent_id text g =
      let (how, keys) = register decode agent_id text g.agent_keys in
      let g' : Gateway F D Key S = record g { agent_keys = keys } in
      elim how [
        | registered ↦ (rendered 201 (confirmed agent_id), g')
        | malformed_key ↦ (crashed value_error, g')
        | agent_already_registered ↦ (http_exception 409, g')
      ]

  unfoldable pub register_attestation_hash :
      AttestationHashRegistration → Gateway F D Key S → Response F D × Gateway F D Key S
  unfolding both write_build write_prompt
  register_attestation_hash q g =
      let build = both q.framework_id q.build_hash in
      let prompt = both q.agent_id q.system_prompt_hash in
      let r = write_prompt prompt (write_build build g.attestations) in
      if Dict.is_some build || Dict.is_some prompt
      then (
        rendered 201 (hashes_registered (reported build) (reported prompt)),
        record g { attestations = r },
      )
      else (http_exception 400, g)

  unfoldable pub create_revocation :
      Moment → RevocationRequest → Gateway F D Key S → Response F D × Gateway F D Key S
  unfolding apply_action note_revocation
  create_revocation m q g = elim (apply_action m q g.state.store) [
    | none ↦ ((if q.action == "suspend" then crashed overflow_error else http_exception 400), g)
    | some store ↦ (
      rendered 201 (confirmed q.subject_id),
      record g {
        state = record {
          store = store;
          trust = note_revocation m q.subject_type q.subject_id g.state.trust;
        };
      },
    )
  ]

  unfoldable pub delete_revocation :
      Moment → String → Gateway F D Key S → Response F D × Gateway F D Key S
  unfolding reinstate
  delete_revocation m subject g =
      let (existed, store) = reinstate subject m.synced_at g.state.store in
      (
        (if existed then rendered 200 (confirmed subject) else http_exception 404),
        record g { state = record (g.state) { store = store } },
      )
