-- ===== src/Boundaries/Within.antt =====
-- `check_boundaries` against the description of a request within a policy.
use asset_embedding_protocol.Prelude.{
  ℕ, String, ◌≡◌, refl, Option, [], string_eq, arith, some, false, inl, inr, ◌↔◌, Option-cases,
  nat_eq, sym, ap, ◌∙◌, subst, none,
}
use asset_embedding_protocol.Number.{Float}
use asset_embedding_protocol.Text.{codes_eq}
use asset_embedding_protocol.Prelude.{sym, ap, subst, ◌∙◌, none}
use asset_embedding_protocol.Prelude.Int.{ℤ}
use asset_embedding_protocol.Models.{
  Value, null, bool, int, float, text, array, object, Claim, CustosEnvelope, action_value,
}
use asset_embedding_protocol.Boundaries.{check_boundaries, numeric}
use asset_embedding_protocol.Dict.{get}
use asset_embedding_protocol.Boundaries.Admitted.{IsWithin, violations-IsWithin_iff}

-- The conversion of an amount raises exactly for an integer that is too large.
numeric-none_iff :
    {F : Type 0} ⦃f : Float F⦄ (v : Option (Value F))
    → (numeric v ≡ none) ↔ ((n : ℤ) × (v ≡ some (int n)) × (f.fits n ≡ false))
unfolding numeric
numeric-none_iff none = (λ h. absurd (ground (arith, h)), λ h. absurd (ground (arith, h.1)))
numeric-none_iff (some (int n)) = (λ h. (n, refl, ground (arith, h)), λ h. ground (arith, h.1, h.2))
numeric-none_iff (some (float x)) =
    (λ h. absurd (ground (arith, h)), λ h. absurd (ground (arith, h.1)))
numeric-none_iff (some null) = (λ h. absurd (ground (arith, h)), λ h. absurd (ground (arith, h.1)))
numeric-none_iff (some (bool b)) =
    (λ h. absurd (ground (arith, h)), λ h. absurd (ground (arith, h.1)))
numeric-none_iff (some (text s)) =
    (λ h. absurd (ground (arith, h)), λ h. absurd (ground (arith, h.1)))
numeric-none_iff (some (array xs)) =
    (λ h. absurd (ground (arith, h)), λ h. absurd (ground (arith, h.1)))
numeric-none_iff (some (object fs)) =
    (λ h. absurd (ground (arith, h)), λ h. absurd (ground (arith, h.1)))

-- `check_boundaries` reports no violation exactly if the amount, where it is a number, converts to a
-- float, the action is not denied and is allowed, the amount keeps both limits that are positive (the
-- daily one over what was spent before), the time lies in the window, the caller's place is among the
-- permitted ones, and the class of a resolved claim is permitted; a list that is empty and a part that
-- is absent restrict nothing. It raises exactly if the amount is an integer too large for a float.
pub check_boundaries-IsWithin_iff :
    {F D : Type 0} ⦃f : Float F⦄ (e : CustosEnvelope F) (claim : Option (Claim D))
    (request_geo : Option String) (now : ℕ) (day_total : F)
    → ((check_boundaries e claim request_geo now day_total ≡ some []) ↔ (
        (amount : Option F) × (numeric (get "amount" e.intent.parameters) ≡ some amount)
        × IsWithin e.boundaries
            (action_value e.intent.action)
            amount
            claim
            request_geo
            now
            day_total))
      × ((check_boundaries e claim request_geo now day_total ≡ none)
          ↔ ((n : ℤ) × (get "amount" e.intent.parameters ≡ some (int n)) × (f.fits n ≡ false)))
unfolding check_boundaries
check_boundaries-IsWithin_iff {F} e claim request_geo now day_total =
    elim (Option-cases (numeric (get "amount" e.intent.parameters))) [
      | inl huge ↦ (
        (λ h. absurd (ground (arith, huge, h)), λ h. absurd (ground (arith, huge, h.1))),
        (
          λ h. (numeric-none_iff (get "amount" e.intent.parameters)).0 huge,
          λ h. ground (arith, huge),
        ),
      )
      | inr (amount, given) ↦
          let within =
            violations-IsWithin_iff e.boundaries (action_value e.intent.action) amount claim
              request_geo now day_total in
          (
            (
              λ h. (amount, given, within.0 (ground (arith, given, h))),
              λ h.
                  let same : some amount ≡ some h.0 = sym given ∙ h.1 in
                  let here : amount ≡ h.0 = cc in
                  rw (given, check_boundaries)
                    (ap some (
                      within.1 (
                        subst
                          (λ (x : Option F).
                            IsWithin e.boundaries (action_value e.intent.action) x claim request_geo
                              now day_total)
                          (sym here) h.2))),
            ),
            (
              λ h. absurd (ground (arith, given, h)),
              λ h. absurd (
                  ground (arith, given, (numeric-none_iff (get "amount" e.intent.parameters)).1 h)),
            ),
          )
    ]
