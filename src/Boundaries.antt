-- ===== src/Boundaries.antt =====
-- custos_protocol/boundaries.py: `check_boundaries`, each predicate as the list of the codes that it
-- appends, in the order of the source.
pub mod Admitted
pub mod Within
use asset_embedding_protocol.Prelude.{
  ℕ, String, Bool, Option, none, some, List, [], ◌∷◌, ◌++◌, map, ◌&&◌, not, leb, ◌==◌, string_eq,
  if◌then◌else◌, contains, is_nonempty, zero, suc, ◌+◌, ◌-◌, ◌*◌, ◌/◌, ◌%◌, ◌^◌, ◌≤◌, ◌<◌, ◌≡◌,
  refl, sym, ap, ◌∙◌, subst, ◌≢◌, ◌↔◌, ◌⊎◌, inl, inr, true, false, ◌||◌, arith, eq_iff, ltb, ltb→lt,
  leb→le, tests, Eq, nat_eq, Bool-cases, Option-cases, &&_true, length, length-append, All,
  All-append, All-map, subset, Among, contains-Among, Among-contains, contains-subset,
  subset-nonempty,
}
use asset_embedding_protocol.Number.{Float}
use asset_embedding_protocol.Text.{Codes, codes, codes_eq, strip, upper, split_commas}
use asset_embedding_protocol.Dict.{get}
use asset_embedding_protocol.Errors.{
  CustosErrorCode, action_denied, action_not_allowed, monetary_limit_per_txn,
  monetary_limit_per_day, time_window_violation, geo_restriction, asset_class_not_allowed,
}
use asset_embedding_protocol.Models.{
  Value, int, float, Boundaries, TimeWindow, CustosEnvelope, Claim, action_value,
}

-- A text that counts as true: not None, not "".
unfoldable pub truthy : Option String → Option String
truthy none = none
truthy (some s) = if s == "" then none else some s

-- part.strip().upper()
unfoldable pub normalized : Codes → Codes
unfolding strip upper
normalized p = upper (strip p)

-- {part.strip().upper() for part in text.split(",")}
unfoldable pub permitted : String → List Codes
unfolding split_commas normalized
permitted text = map normalized (split_commas (codes text))

-- 1, 2. The deny list wins over the allow list, which counts once it is non-empty.
unfoldable pub action_violations : List String → List String → String → List CustosErrorCode
action_violations denied allowed action =
    if contains action denied
    then action_denied ∷ []
    else if is_nonempty allowed && not (contains action allowed)
    then action_not_allowed ∷ []
    else []

-- 5. Time window.
unfoldable pub window_violations : Option TimeWindow → ℕ → List CustosErrorCode
window_violations none now = []
window_violations (some w) now =
    if not (leb w.start now && leb now w.end) then time_window_violation ∷ [] else []

-- 6. Geography.
unfoldable pub geo_violations : Option String → Option String → List CustosErrorCode
unfolding truthy permitted normalized
geo_violations restriction request = elim (truthy restriction) [
  | none ↦ []
  | some r ↦ elim (truthy request) [
    | none ↦ []
    | some g ↦
        if not (contains (normalized (codes g)) (permitted r)) then geo_restriction ∷ [] else []
  ]
]

-- 7. Asset class, skipped where no claim was resolved.
unfoldable pub class_violations :
    {D : Type 0} → List String → Option (Claim D) → List CustosErrorCode
class_violations classes none = []
class_violations classes (some claim) =
    if is_nonempty classes && not (contains claim.asset_class classes)
    then asset_class_not_allowed ∷ []
    else []

module _ {F : Type 0} ⦃f : Float F⦄ where
  -- _numeric, `none` where float(value) raises OverflowError
  unfoldable pub numeric : Option (Value F) → Option (Option F)
  numeric (some (int n)) = if f.fits n then some (some (f.of_int n)) else none
  numeric (some (float x)) = some (some x)
  numeric v = some none

  -- 3. Per transaction; a limit of 0 means none.
  unfoldable pub transaction_violations : Option F → F → List CustosErrorCode
  transaction_violations none limit = []
  transaction_violations (some amount) limit =
      if f.lt f.nought limit && f.lt limit amount then monetary_limit_per_txn ∷ [] else []

  -- 4. Per rolling day, over what was spent before.
  unfoldable pub day_violations : Option F → F → F → List CustosErrorCode
  day_violations none limit day_total = []
  day_violations (some amount) limit day_total =
      if f.lt f.nought limit && f.lt limit (f.add day_total amount)
      then monetary_limit_per_day ∷ []
      else []

  -- The predicates over a policy, for one request.
  unfoldable pub violations :
      {D : Type 0}
      → Boundaries F
      → String
      → Option F
      → Option (Claim D)
      → Option String
      → ℕ
      → F
      → List CustosErrorCode
  violations b action amount claim request_geo now day_total =
      action_violations b.denied_actions b.allowed_actions action
      ++ (transaction_violations amount b.monetary_limit.per_transaction
          ++ (day_violations amount b.monetary_limit.per_day day_total
              ++ (window_violations b.time_window now
                  ++ (geo_violations b.geo_restriction request_geo
                      ++ class_violations b.asset_classes claim))))

  -- the codes, `none` where the conversion of the amount raises
  unfoldable pub check_boundaries :
      {D : Type 0}
      → CustosEnvelope F
      → Option (Claim D)
      → Option String
      → ℕ
      → F
      → Option (List CustosErrorCode)
  unfolding numeric violations
  check_boundaries envelope claim request_geo now day_total =
      elim (numeric (get "amount" envelope.intent.parameters)) [
        | none ↦ none
        | some amount ↦ some (
            violations envelope.boundaries (action_value envelope.intent.action) amount claim
              request_geo now day_total)
      ]
