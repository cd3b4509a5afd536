-- ===== src/Models/Policy.antt =====
-- models.py: actions, tiers, boundaries, the delegation chain.
use asset_embedding_protocol.Prelude.{ℕ, String, Bool, Option, List, ◌&&◌, nat_eq, string_eq}
use asset_embedding_protocol.Number.{Float}

pub data VerificationTier : Type 0 where
  tier_0 tier_1 tier_2 : VerificationTier

pub data Action : Type 0 where
  borrow_against trade redeem read : Action

-- the member's value
unfoldable pub action_value : Action → String
action_value borrow_against = "borrow_against"
action_value trade = "trade"
action_value redeem = "redeem"
action_value read = "read"

pub data AttestationMethod : Type 0 where
  self_reported framework_registry third_party_audit : AttestationMethod

pub data RevocationStatus : Type 0 where
  not_revoked revoked suspended : RevocationStatus

pub data CheckOutcome : Type 0 where
  passed failed not_run : CheckOutcome

pub record MonetaryLimit (F : Type 0) : Type 0 where
  pub per_transaction : F
  pub per_day : F
  pub currency : String

-- Field(ge=0) of both limits
unfoldable pub monetary_limit_valid : {F : Type 0} ⦃f : Float F⦄ → MonetaryLimit F → Bool
monetary_limit_valid ⦃f⦄ m = f.le f.nought m.per_transaction && f.le f.nought m.per_day

pub record TimeWindow : Type 0 where
  pub start : ℕ
  pub end : ℕ

pub record Boundaries (F : Type 0) : Type 0 where
  pub allowed_actions : List String
  pub denied_actions : List String
  pub monetary_limit : MonetaryLimit F
  pub asset_classes : List String
  pub geo_restriction : Option String
  pub time_window : Option TimeWindow

pub record DelegationLink (F : Type 0) : Type 0 where
  pub from_id : String
  pub to_id : String
  pub scope : String
  pub boundary_monotonicity : Bool
  pub boundaries : Boundaries F
  pub granted_at : ℕ
  pub expires_at : Option ℕ

pub record Principal (F : Type 0) : Type 0 where
  pub kind : String
  pub id : String
  pub delegation_chain : List (DelegationLink F)

pub record AgentAttestation : Type 0 where
  pub method : AttestationMethod
  pub framework_id : Option String
  pub build_hash : Option String
  pub system_prompt_hash : Option String
  pub registry_signature : Option String

pub record AgentIdentity : Type 0 where
  pub id : String
  pub version : String
  pub runtime : String
  pub attestation : AgentAttestation
