-- ===== src/Passport.antt =====
-- custos_protocol/passport.py: the identity that `AgentPassport.create` makes. The platform makes the
-- key pair; the random name and the clock's reading are arguments.
use asset_embedding_protocol.Prelude.{
  ℕ, String, Option, none, some, List, [], ◌∷◌, true, if◌then◌else◌, nat_eq, string_eq,
}
use asset_embedding_protocol.Number.{Float}
use asset_embedding_protocol.Text.{concat}
use asset_embedding_protocol.Models.{
  AgentIdentity, AttestationMethod, framework_registry, self_reported, Principal, DelegationLink,
  Boundaries, monetary_limit_valid,
}
use asset_embedding_protocol.Boundaries.{truthy}

-- The arguments of `AgentPassport.create`; an absent list and an empty one are the same.
pub record PassportArguments (F : Type 0) : Type 0 where
  pub domain : String
  pub agent_name : Option String
  pub version : String
  pub principal_id : Option String
  pub principal_type : String
  pub allowed_actions : List String
  pub denied_actions : List String
  pub monetary_limit_per_txn : F
  pub monetary_limit_per_day : F
  pub currency : String
  pub asset_classes : List String
  pub geo_restriction : Option String
  pub framework_id : Option String
  pub system_prompt_hash : Option String

-- class AgentPassport, over the types of the floats and of the two kinds of key
pub record AgentPassport (F Key PrivateKey : Type 0) : Type 0 where
  pub agent : AgentIdentity
  pub principal : Principal F
  pub boundaries : Boundaries F
  pub public_key : Key
  pub private_key : Option PrivateKey

-- x or other
abbrev or_else : Option String → String → String
or_else x other = elim (truthy x) [ none ↦ other | some s ↦ s ]

-- FRAMEWORK_REGISTRY if framework_id else SELF_REPORTED
unfoldable pub attestation_method : Option String → AttestationMethod
unfolding truthy
attestation_method framework_id = elim (truthy framework_id) [
  | none ↦ self_reported
  | some i ↦ framework_registry
]

module _ {F : Type 0} (p : PassportArguments F) where
  unfoldable pub agent_id_of : String → String
  unfolding truthy
  agent_id_of hex =
      concat "did:web:"
        (concat p.domain (concat ":agents:" (or_else p.agent_name (concat "agent-" hex))))

  unfoldable pub principal_id_of : String
  unfolding truthy
  principal_id_of = or_else p.principal_id (concat "did:web:" p.domain)

  unfoldable pub boundaries_of : Boundaries F
  boundaries_of = record {
    allowed_actions = p.allowed_actions;
    denied_actions = p.denied_actions;
    monetary_limit = record {
      per_transaction = p.monetary_limit_per_txn;
      per_day = p.monetary_limit_per_day;
      currency = p.currency;
    };
    asset_classes = p.asset_classes;
    geo_restriction = p.geo_restriction;
    time_window = none;
  }

  -- the one hop from the principal to the agent
  unfoldable pub own_hop : String → ℕ → DelegationLink F
  unfolding agent_id_of principal_id_of boundaries_of
  own_hop hex now = record {
    from_id = principal_id_of;
    to_id = agent_id_of hex;
    scope = "default";
    boundary_monotonicity = true;
    boundaries = boundaries_of;
    granted_at = now;
    expires_at = none;
  }

  unfoldable pub identity_of : String → AgentIdentity
  unfolding agent_id_of attestation_method
  identity_of hex = record {
    id = agent_id_of hex;
    version = p.version;
    runtime = "custos-sdk/1.0.0";
    attestation = record {
      method = attestation_method p.framework_id;
      framework_id = p.framework_id;
      build_hash = none;
      system_prompt_hash = p.system_prompt_hash;
      registry_signature = none;
    };
  }

-- AgentPassport.create, `none` where a monetary limit is refused
unfoldable pub create :
    {F Key PrivateKey : Type 0} ⦃f : Float F⦄
    → PassportArguments F
    → String
    → ℕ
    → Key
    → PrivateKey
    → Option (AgentPassport F Key PrivateKey)
unfolding identity_of own_hop principal_id_of boundaries_of monetary_limit_valid
create p hex now public_key private_key =
    if monetary_limit_valid (boundaries_of p).monetary_limit
    then some (record {
      agent = identity_of p hex;
      principal = record {
        kind = p.principal_type;
        id = principal_id_of p;
        delegation_chain = own_hop p hex now ∷ [];
      };
      boundaries = boundaries_of p;
      public_key = public_key;
      private_key = some private_key;
    })
    else none
