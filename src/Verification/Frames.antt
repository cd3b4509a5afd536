-- ===== src/Verification/Frames.antt =====
-- What each stage of the pipeline leaves alone.
use asset_embedding_protocol.Prelude.{ℕ, ◌≡◌, refl, Option, none, some, arith, nat_eq, string_eq}
use asset_embedding_protocol.Number.{Float, Decimal}
use asset_embedding_protocol.Revocation.{is_revoked, is_suspended}
use asset_embedding_protocol.Drift.{AssetTruth, scored, failure}
use asset_embedding_protocol.Models.{Claim}
use asset_embedding_protocol.Dict.{Dict}
use asset_embedding_protocol.Pipeline.{
  Arguments, Readings, Session, Step, nonce_stage, amount_stage, reserve_stage, judge_stage,
  agent_stage, issuer_stage, fresh_stage, settle, asset_stage, attestation_stage, delegation_stage,
  trust_stage, pass,
}

-- the nonces and their number's bound
abbrev pub cache : {F : Type 0} → Session F → Dict ℕ × ℕ
cache s = (s.state.store.nonces, s.state.store.max_nonces)

module _ {F : Type 0} (step : Step) (s : Session F) where
  pub state-pass : (pass step s).1.state ≡ s.state
  unfolding pass
  state-pass = refl

module _ {F D Key : Type 0} ⦃f : Float F⦄ ⦃d : Decimal D F⦄ (a : Arguments F D Key) (r : Readings)
    (s : Session F) where
  pub state-nonce_stage : (nonce_stage a r s).1.state ≡ s.state
  unfolding nonce_stage
  state-nonce_stage = ground arith

  pub amount_same : (amount_stage a r s).1 ≡ s
  unfolding amount_stage
  amount_same = ground arith

  pub cache-reserve_stage : (amount : Option F) → cache (reserve_stage a r amount s).1 ≡ cache s
  unfolding reserve_stage
  cache-reserve_stage none = refl
  cache-reserve_stage (some x) = refl

  pub cache-judge_stage : (before : F) → cache (judge_stage a r before s).1 ≡ cache s
  unfolding judge_stage
  cache-judge_stage before = ground arith

  pub cache-fresh_stage : cache (fresh_stage a r s).1 ≡ cache s
  unfolding fresh_stage
  cache-fresh_stage = ground arith

  pub cache-agent_stage : cache (agent_stage a r s).1 ≡ cache s
  unfolding agent_stage is_revoked is_suspended
  cache-agent_stage = ground arith

  pub cache-issuer_stage : (claim : Option (Claim D)) → cache (issuer_stage a r claim s).1 ≡ cache s
  unfolding issuer_stage is_revoked
  cache-issuer_stage none = refl
  cache-issuer_stage (some c) = ground arith

  pub state-settle : (x : AssetTruth F) → (settle a r x s).1.state ≡ s.state
  unfolding settle
  state-settle (scored x) = refl
  state-settle (failure x) = refl

  pub state-asset_stage : (asset_stage a r s).1.state ≡ s.state
  unfolding asset_stage
  state-asset_stage = state-settle _

  pub state-attestation_stage : (attestation_stage a r s).1.state ≡ s.state
  unfolding attestation_stage
  state-attestation_stage = ground arith

  pub state-delegation_stage : (delegation_stage a r s).1.state ≡ s.state
  unfolding delegation_stage
  state-delegation_stage = ground arith

  pub state-trust_stage : (trust_stage a r s).1.state ≡ s.state
  unfolding trust_stage
  state-trust_stage = ground arith
