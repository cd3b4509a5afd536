-- ===== src/Tests/Policies.antt =====
-- Examples of boundaries, delegation and asset truth.
use asset_embedding_protocol.Prelude.{
  ◌≡◌, refl, none, some, [], nat_eq, string_eq, contains, subset, ℕ, String, ap, subst, ◌≢◌, ◌↔◌,
  true, Option, is_nonempty, All, false,
}
use asset_embedding_protocol.Number.Fixed.{fixed, fixed_decimal, fixed_laws}
use asset_embedding_protocol.Tests.Fixtures.{
  noon, envelope, claim, delegation_config, drift_config, observation,
}
use asset_embedding_protocol.Errors.{unknown_asset, oracle_unavailable}
use asset_embedding_protocol.Drift.{check_asset_truth, scored}
use asset_embedding_protocol.Drift.Plausible.{
  check_asset_truth-IsPlausible_iff, fails_closed, IsPlausible, full_scores, code_of,
}
use asset_embedding_protocol.Models.{DelegationLink, Claim, Observation, int}
use asset_embedding_protocol.Delegation.Chain.{
  IsAuthorised, delegation_never_widens, check_delegation-IsAuthorised_iff,
}
use asset_embedding_protocol.Text.{codes}
use asset_embedding_protocol.Boundaries.{
  check_boundaries, violations, action_violations, transaction_violations, numeric, day_violations,
  window_violations, geo_violations, truthy, permitted, normalized, class_violations,
}
use asset_embedding_protocol.Prelude.{contains, subset}
use asset_embedding_protocol.Dict.{get}
use asset_embedding_protocol.Models.{action_value}
use asset_embedding_protocol.Text.{strip, upper, split_commas, codes_beq}
use asset_embedding_protocol.Delegation.{
  check_delegation, delegation_detail, chain_detail, last_link, discontinuity, untimely,
  has_expired, widening, envelope_widening, containment_violation, list_contained,
  numeric_limit_contained, geo_contained, geo_set, window_contained,
}
use asset_embedding_protocol.Boundaries.Within.{check_boundaries-IsWithin_iff}
use asset_embedding_protocol.Boundaries.Admitted.{IsWithin}
use asset_embedding_protocol.Delegation.Containment.{IsNamed}
use asset_embedding_protocol.Prelude.Int.{ℤ}

within : check_boundaries envelope (some claim) (some "us ") noon 0 ≡ some []
unfolding check_boundaries violations action_violations contains action_value transaction_violations
    numeric get day_violations window_violations geo_violations truthy permitted normalized strip
    upper split_commas codes_beq class_violations
within = refl

accepted : check_delegation envelope delegation_config noon ≡ none
unfolding check_delegation delegation_detail chain_detail last_link discontinuity untimely
    has_expired widening envelope_widening containment_violation list_contained subset contains
    numeric_limit_contained geo_contained geo_set truthy normalized strip upper split_commas
    codes_beq window_contained
accepted = refl

named : IsNamed (some "us ")
unfolding truthy normalized strip upper
named g e =
    let same : "us " ≡ g = ap (λ (o : Option String). elim o [ none ↦ "" | some x ↦ x ]) e in
    subst (λ x. is_nonempty (normalized (codes x)) ≡ true) same refl

delegation_never_widens_example :
    (amount : Option ℕ) × (numeric (get "amount" envelope.intent.parameters) ≡ some amount)
    × All
        (λ (link : DelegationLink ℕ).
          violations link.boundaries
            (action_value envelope.intent.action)
            amount
            (some claim)
            (some "us ")
            noon
            0
          ≡ [])
        envelope.principal.delegation_chain
delegation_never_widens_example =
    delegation_never_widens fixed_laws envelope delegation_config noon (some claim) (some "us ")
      noon 0 named accepted within

check_boundaries-IsWithin_iff_example :
    ((check_boundaries envelope (some claim) (some "us ") noon 0 ≡ some []) ↔ (
      (amount : Option ℕ) × (numeric (get "amount" envelope.intent.parameters) ≡ some amount)
      × IsWithin envelope.boundaries
          (action_value envelope.intent.action)
          amount
          (some claim)
          (some "us ")
          noon
          0))
    × ((check_boundaries envelope (some claim) (some "us ") noon 0 ≡ none) ↔ (
        (n : ℤ) × (get "amount" envelope.intent.parameters ≡ some (int n))
        × (fixed.fits n ≡ false)))
check_boundaries-IsWithin_iff_example =
    check_boundaries-IsWithin_iff envelope (some claim) (some "us ") noon 0

check_delegation-IsAuthorised_iff_example :
    (check_delegation envelope delegation_config noon ≡ none)
    ↔ IsAuthorised envelope delegation_config noon envelope.principal.delegation_chain
check_delegation-IsAuthorised_iff_example =
    check_delegation-IsAuthorised_iff envelope delegation_config noon

check_asset_truth-IsPlausible_iff_example :
    let s = full_scores claim observation drift_config noon in
    (check_asset_truth (some claim) (some observation) drift_config noon ≡ scored s) ↔ (
      (c : Claim ℕ) × (o : Observation) × (some claim ≡ some c)
      × (some observation ≡ some o)
      × IsPlausible c o drift_config noon
      × (s ≡ full_scores c o drift_config noon))
check_asset_truth-IsPlausible_iff_example =
    check_asset_truth-IsPlausible_iff (some claim) (some observation) drift_config noon
      (full_scores claim observation drift_config noon)

fails_closed_example :
    let o : Option Observation = none in
    ((code_of (check_asset_truth (some claim) o drift_config noon) ≡ some unknown_asset)
      ↔ (some claim ≡ none))
    × ((code_of (check_asset_truth (some claim) o drift_config noon) ≡ some oracle_unavailable)
        ↔ ((some claim ≢ none) × (o ≡ none)))
fails_closed_example = fails_closed (some claim) none drift_config noon
