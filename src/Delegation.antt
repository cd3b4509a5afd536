-- ===== src/Delegation.antt =====
-- custos_protocol/delegation.py: containment of one policy in another, and the checks of a chain.
pub mod Containment
pub mod Chain
use asset_embedding_protocol.Prelude.{
  ℕ, ◌+◌, ◌*◌, String, Bool, true, false, Option, none, some, List, [], ◌∷◌, map, ◌&&◌, ◌||◌, not,
  ltb, leb, ◌==◌, string_eq, if◌then◌else◌, subset, is_nonempty, length, suc, zero, ◌-◌, ◌/◌, ◌%◌,
  ◌^◌, ◌≤◌, ◌<◌, ◌≡◌, refl, sym, ap, ◌∙◌, subst, ◌≢◌, ◌↔◌, ◌⊎◌, inl, inr, ◌++◌, arith, eq_iff,
  ltb→lt, leb→le, tests, Eq, nat_eq, Bool-cases, Option-cases, &&_true, length-append, All,
  All-append, All-map, contains, Among, contains-Among, Among-contains, contains-subset,
  subset-nonempty,
}
use asset_embedding_protocol.Number.{Float}
use asset_embedding_protocol.Text.{Codes, codes, codes_eq, strip, split_commas}
use asset_embedding_protocol.Errors.{CustosErrorCode, delegation_invalid}
use asset_embedding_protocol.Models.{Boundaries, TimeWindow, DelegationLink, CustosEnvelope, second}
use asset_embedding_protocol.Boundaries.{truthy, normalized}

-- class DelegationConfig
pub record DelegationConfig : Type 0 where
  pub clock_skew_seconds : ℕ
  pub max_delegation_depth : ℕ

-- DelegationConfig()
abbrev pub default_delegation_config : DelegationConfig
default_delegation_config = record { clock_skew_seconds = 5; max_delegation_depth = 8 }

-- The reasons that `_containment_violation` returns, and the details of a failure; what an f-string
-- interpolates besides the hop is left out.
pub data Widening : Type 0 where
  allowed_actions denied_actions per_transaction per_day : Widening
  geo_restriction asset_classes time_window : Widening

pub data DelegationDetail : Type 0 where
  empty_chain too_deep wrong_start wrong_end : DelegationDetail
  discontinuous expired granted_in_future : ℕ → DelegationDetail
  widens : ℕ → Widening → DelegationDetail
  envelope_widens : Widening → DelegationDetail

-- class DelegationFailure
pub record DelegationFailure : Type 0 where
  pub code : CustosErrorCode
  pub detail : DelegationDetail

-- _fail
unfoldable pub fail : DelegationDetail → DelegationFailure
fail d = record { code = delegation_invalid; detail = d }

-- {part.strip().upper() for part in value.split(",") if part.strip()}
named_parts : List Codes → List Codes
named_parts [] = []
named_parts (p ∷ ps) =
    let rest = named_parts ps in if is_nonempty (strip p) then normalized p ∷ rest else rest

-- _geo_set: None or "" is unrestricted
unfoldable pub geo_set : Option String → Option (List Codes)
unfolding truthy named_parts
geo_set value = elim (truthy value) [
  | none ↦ none
  | some r ↦ some (named_parts (split_commas (codes r)))
]

-- child_geo is not None and child_geo <= parent_geo, where there is a parent_geo
unfoldable pub geo_contained : Option (List Codes) → Option (List Codes) → Bool
geo_contained child none = true
geo_contained none (some parent) = false
geo_contained (some child) (some parent) = subset child parent

-- _window_contained
unfoldable pub window_contained : Option TimeWindow → Option TimeWindow → Bool
window_contained child none = true
window_contained none (some parent) = false
window_contained (some child) (some parent) =
    leb parent.start child.start && leb child.end parent.end

-- `parent and (not child or not set(child) <= set(parent))`, negated
unfoldable pub list_contained : List String → List String → Bool
list_contained child parent =
    not (is_nonempty parent && (not (is_nonempty child) || not (subset child parent)))

-- link.expires_at is not None and link.expires_at < now
unfoldable pub has_expired : Option ℕ → ℕ → Bool
has_expired none now = false
has_expired (some t) now = ltb t now

-- the first reason of two
abbrev pub first : Option DelegationDetail → Option DelegationDetail → Option DelegationDetail
first none b = b
first (some a) b = some a

module _ {F : Type 0} ⦃f : Float F⦄ where
  -- _numeric_limit_contained: 0 means no limit
  unfoldable pub numeric_limit_contained : F → F → Bool
  numeric_limit_contained child parent =
      if f.eq parent f.nought then true else f.lt f.nought child && f.le child parent

  -- _containment_violation
  unfoldable pub containment_violation : Boundaries F → Boundaries F → Option Widening
  containment_violation child parent =
      if not (list_contained child.allowed_actions parent.allowed_actions)
      then some allowed_actions
      else if not (subset parent.denied_actions child.denied_actions)
      then some denied_actions
      else if not (
          numeric_limit_contained child.monetary_limit.per_transaction
            parent.monetary_limit.per_transaction)
      then some per_transaction
      else if not
          (numeric_limit_contained child.monetary_limit.per_day parent.monetary_limit.per_day)
      then some per_day
      else if not (geo_contained (geo_set child.geo_restriction) (geo_set parent.geo_restriction))
      then some geo_restriction
      else if not (list_contained child.asset_classes parent.asset_classes)
      then some asset_classes
      else if not (window_contained child.time_window parent.time_window)
      then some time_window
      else none

  -- chain[-1]
  unfoldable pub last_link : DelegationLink F → List (DelegationLink F) → DelegationLink F
  last_link l [] = l
  last_link l (m ∷ ms) = last_link m ms

  -- the loop over zip(chain, chain[1:]) for continuity, from hop `index`
  unfoldable pub discontinuity :
      ℕ → DelegationLink F → List (DelegationLink F) → Option DelegationDetail
  discontinuity index previous [] = none
  discontinuity index previous (current ∷ rest) =
      if not (previous.to_id == current.from_id)
      then some (discontinuous index)
      else discontinuity (suc index) current rest

  -- the loop over the links for their times
  unfoldable pub untimely : ℕ → ℕ → ℕ → List (DelegationLink F) → Option DelegationDetail
  untimely grace now index [] = none
  untimely grace now index (link ∷ rest) =
      if has_expired link.expires_at now
      then some (expired index)
      else if ltb (now + grace) link.granted_at
      then some (granted_in_future index)
      else untimely grace now (suc index) rest

  -- the loop over zip(chain, chain[1:]) for containment
  unfoldable pub widening : ℕ → DelegationLink F → List (DelegationLink F) → Option DelegationDetail
  widening index previous [] = none
  widening index previous (current ∷ rest) =
      elim (containment_violation current.boundaries previous.boundaries) [
        | some w ↦ some (widens (suc index) w)
        | none ↦ widening (suc index) current rest
      ]

  -- the last check, of the envelope's own boundaries
  unfoldable pub envelope_widening : Boundaries F → DelegationLink F → Option DelegationDetail
  envelope_widening own last = elim (containment_violation own last.boundaries) [
    | some w ↦ some (envelope_widens w)
    | none ↦ none
  ]

  -- the checks of a chain that is not empty
  unfoldable pub chain_detail :
      CustosEnvelope F
      → DelegationConfig
      → ℕ
      → DelegationLink F
      → List (DelegationLink F)
      → Option DelegationDetail
  chain_detail e config now link rest =
      if ltb config.max_delegation_depth (length (link ∷ rest))
      then some too_deep
      else if not (link.from_id == e.principal.id)
      then some wrong_start
      else if not ((last_link link rest).to_id == e.agent.id)
      then some wrong_end
      else first (discontinuity 0 link rest) (
          first (untimely (config.clock_skew_seconds * second) now 0 (link ∷ rest))
            (first (widening 0 link rest) (envelope_widening e.boundaries (last_link link rest))))

  -- the detail of check_delegation's failure
  unfoldable pub delegation_detail :
      CustosEnvelope F → DelegationConfig → ℕ → List (DelegationLink F) → Option DelegationDetail
  delegation_detail e config now [] =
      if e.principal.id == e.agent.id then none else some empty_chain
  delegation_detail e config now (link ∷ rest) = chain_detail e config now link rest

  unfoldable pub check_delegation :
      CustosEnvelope F → DelegationConfig → ℕ → Option DelegationFailure
  check_delegation e config now =
      elim (delegation_detail e config now e.principal.delegation_chain) [
        | none ↦ none
        | some d ↦ some (fail d)
      ]
