-- ===== src/Claims.antt =====
-- claims/registry.py: the registry of claims, and the update of one by the demo.
use asset_embedding_protocol.Prelude.{String, Option, none, some, List, nat_eq, string_eq}
use asset_embedding_protocol.Prelude.Int.{ℤ, pos, negsuc}
use asset_embedding_protocol.Dict
use asset_embedding_protocol.Dict.{Dict}
use asset_embedding_protocol.Models.{Claim}

-- How update_claim ends: it returns a claim or None, or raises ValidationError.
pub data Update (D : Type 0) : Type 0 where
  updated : Claim D → Update D
  no_such_claim invalid_update : Update D

module _ {D : Type 0} where
  -- ClaimRegistry.get_claim and list_claims
  unfoldable pub get_claim : String → Dict (Claim D) → Option (Claim D)
  get_claim asset_id claims = Dict.get asset_id claims

  unfoldable pub list_claims : Dict (Claim D) → List (Claim D)
  list_claims claims = Dict.values claims

  -- Claim.model_validate of a claim with another yield, which must not be negative
  unfoldable pub with_yield : ℤ → Claim D → Option (Claim D)
  with_yield (pos n) c = some (record c { claimed_yield_bps = n })
  with_yield (negsuc n) c = none

  -- ClaimRegistry.update_claim of `claimed_yield_bps`, the one update that is made
  unfoldable pub update_claim : String → ℤ → Dict (Claim D) → Update D × Dict (Claim D)
  unfolding with_yield
  update_claim asset_id yield_bps claims = elim (Dict.get asset_id claims) [
    | none ↦ (no_such_claim, claims)
    | some c ↦ elim (with_yield yield_bps c) [
      | none ↦ (invalid_update, claims)
      | some c' ↦ (updated c', Dict.put asset_id c' claims)
    ]
  ]
