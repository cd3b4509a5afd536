-- ===== src/Boundaries/Admitted.antt =====
-- boundaries.py: an independent description of a request that a policy admits, and the predicates against it.
use asset_embedding_protocol.Prelude.{
  ℕ, String, ◌≡◌, refl, Option, List, [], ◌∷◌, ◌++◌, string_eq, Among, is_nonempty, arith, ◌⊎◌,
  some, Among-contains, contains-Among, true, false, ◌&&◌, ◌≤◌, not, contains, inl, inr, ◌↔◌,
  Bool-cases, Option-cases, nat_eq,
}
use asset_embedding_protocol.Number.{Float}
use asset_embedding_protocol.Text.{codes_eq, codes}
use asset_embedding_protocol.Models.{Boundaries, Claim, TimeWindow}
use asset_embedding_protocol.Boundaries.{
  action_violations, window_violations, geo_violations, class_violations, transaction_violations,
  day_violations, violations, normalized, permitted, truthy,
}

append-eq-nil {ℓ} : {A : Type ℓ} (xs ys : List A) → xs ++ ys ≡ [] → (xs ≡ []) × (ys ≡ [])
append-eq-nil [] ys h = (refl, h)
append-eq-nil (x ∷ xs) ys h = cc

-- The lists that the six predicates append.
pub record NoViolation {F D : Type 0} ⦃f : Float F⦄ (b : Boundaries F) (action : String)
    (amount : Option F) (claim : Option (Claim D)) (request_geo : Option String) (now : ℕ)
    (day_total : F) : Type 0 where
  pub actions : action_violations b.denied_actions b.allowed_actions action ≡ []
  pub transaction : transaction_violations amount b.monetary_limit.per_transaction ≡ []
  pub day : day_violations amount b.monetary_limit.per_day day_total ≡ []
  pub window : window_violations b.time_window now ≡ []
  pub geo : geo_violations b.geo_restriction request_geo ≡ []
  pub classes : class_violations b.asset_classes claim ≡ []

module _ {F D : Type 0} ⦃f : Float F⦄ (b : Boundaries F) (action : String) (amount : Option F)
    (claim : Option (Claim D)) (request_geo : Option String) (now : ℕ) (day_total : F) where
  pub violations-NoViolation :
      violations b action amount claim request_geo now day_total ≡ []
      → NoViolation b action amount claim request_geo now day_total
  unfolding violations
  violations-NoViolation h =
      let (a, h1) =
        append-eq-nil (action_violations b.denied_actions b.allowed_actions action) _ h in
      let (t, h2) =
        append-eq-nil (transaction_violations amount b.monetary_limit.per_transaction) _ h1 in
      let (d, h3) = append-eq-nil (day_violations amount b.monetary_limit.per_day day_total) _ h2 in
      let (w, h4) = append-eq-nil (window_violations b.time_window now) _ h3 in
      let (g, c) = append-eq-nil (geo_violations b.geo_restriction request_geo) _ h4 in
      record { actions = a; transaction = t; day = d; window = w; geo = g; classes = c }

  pub NoViolation-violations :
      NoViolation b action amount claim request_geo now day_total
      → violations b action amount claim request_geo now day_total ≡ []
  unfolding violations
  NoViolation-violations n = rw (n.actions, n.transaction, n.day, n.window, n.geo, n.classes)

-- A request within a policy, said of the request and the policy.
pub record IsWithin {F D : Type 0} ⦃f : Float F⦄ (b : Boundaries F) (action : String)
    (amount : Option F) (claim : Option (Claim D)) (request_geo : Option String) (now : ℕ)
    (day_total : F) : Type 0 where
  pub not_denied : ¬ Among action b.denied_actions
  pub allowed : (b.allowed_actions ≡ []) ⊎ Among action b.allowed_actions
  pub transaction :
      (x : F)
      → amount ≡ some x
      → f.lt f.nought b.monetary_limit.per_transaction ≡ true
      → f.lt b.monetary_limit.per_transaction x ≡ false
  pub day :
      (x : F)
      → amount ≡ some x
      → f.lt f.nought b.monetary_limit.per_day ≡ true
      → f.lt b.monetary_limit.per_day (f.add day_total x) ≡ false
  pub window : (w : TimeWindow) → b.time_window ≡ some w → (w.start ≤ now) × (now ≤ w.end)
  pub geo :
      (r g : String)
      → truthy b.geo_restriction ≡ some r
      → truthy request_geo ≡ some g
      → Among (normalized (codes g)) (permitted r)
  pub classes :
      (c : Claim D) → claim ≡ some c → (b.asset_classes ≡ []) ⊎ Among c.asset_class b.asset_classes

list-within :
    (x : String) (xs : List String)
    → (is_nonempty xs && not (contains x xs)) ≡ false
    → (xs ≡ []) ⊎ Among x xs
list-within x [] h = inl refl
list-within x (y ∷ ys) h = inr (contains-Among x (y ∷ ys) (ground arith))

within-list :
    (x : String) (xs : List String)
    → (xs ≡ []) ⊎ Among x xs
    → (is_nonempty xs && not (contains x xs)) ≡ false
within-list x [] (inl e) = refl
within-list x (y ∷ ys) (inl e) = cc
within-list x xs (inr m) = ground (arith, Among-contains x xs m)

module _ {F D : Type 0} ⦃f : Float F⦄ (b : Boundaries F) (action : String) (amount : Option F)
    (claim : Option (Claim D)) (request_geo : Option String) (now : ℕ) (day_total : F) where
  NoViolation-IsWithin :
      NoViolation b action amount claim request_geo now day_total
      → IsWithin b action amount claim request_geo now day_total
  unfolding action_violations transaction_violations day_violations window_violations geo_violations
      class_violations
  NoViolation-IsWithin n = record {
    not_denied = λ m. ground (arith, n.actions, Among-contains action b.denied_actions m);
    allowed = list-within action b.allowed_actions (ground (arith, n.actions));
    transaction = λ x e p. ground (arith, n.transaction);
    day = λ x e p. ground (arith, n.day);
    window = λ w e. ground (arith, n.window);
    geo = λ r g er eg. contains-Among (normalized (codes g)) (permitted r) (ground (arith, n.geo));
    classes = λ c e. list-within c.asset_class b.asset_classes (ground (arith, n.classes));
  }

  actions_within :
      IsWithin b action amount claim request_geo now day_total
      → action_violations b.denied_actions b.allowed_actions action ≡ []
  unfolding action_violations
  actions_within w = elim (Bool-cases (contains action b.denied_actions)) [
    | inl denied ↦ absurd (w.not_denied (contains-Among action b.denied_actions denied))
    | inr other ↦ ground (arith, within-list action b.allowed_actions w.allowed)
  ]

  money_within :
      IsWithin b action amount claim request_geo now day_total
      → (transaction_violations amount b.monetary_limit.per_transaction ≡ [])
        × (day_violations amount b.monetary_limit.per_day day_total ≡ [])
  unfolding transaction_violations day_violations
  money_within w = elim (Option-cases amount) [
    | inl absent ↦ rw absent (refl, refl)
    | inr (x, e) ↦ ground (arith, w.transaction x e, w.day x e)
  ]

  window_within :
      IsWithin b action amount claim request_geo now day_total
      → window_violations b.time_window now ≡ []
  unfolding window_violations
  window_within w = elim (Option-cases b.time_window) [
    | inl absent ↦ rw absent refl
    | inr (x, e) ↦ ground (arith, w.window x e)
  ]

  geo_within :
      IsWithin b action amount claim request_geo now day_total
      → geo_violations b.geo_restriction request_geo ≡ []
  unfolding geo_violations
  geo_within w = elim (Option-cases (truthy b.geo_restriction)) [
    | inl free ↦ ground arith
    | inr (r, er) ↦ elim (Option-cases (truthy request_geo)) [
      | inl absent ↦ ground arith
      | inr (g, eg) ↦
          ground (arith, Among-contains (normalized (codes g)) (permitted r) (w.geo r g er eg))
    ]
  ]

  classes_within :
      IsWithin b action amount claim request_geo now day_total
      → class_violations b.asset_classes claim ≡ []
  unfolding class_violations
  classes_within w = elim (Option-cases claim) [
    | inl absent ↦ rw absent refl
    | inr (c, e) ↦ ground (arith, e, within-list c.asset_class b.asset_classes (w.classes c e))
  ]

  IsWithin-NoViolation :
      IsWithin b action amount claim request_geo now day_total
      → NoViolation b action amount claim request_geo now day_total
  IsWithin-NoViolation w = record {
    actions = actions_within w;
    transaction = (money_within w).0;
    day = (money_within w).1;
    window = window_within w;
    geo = geo_within w;
    classes = classes_within w;
  }

  -- No code is reported exactly for the requests that the policy admits.
  pub violations-IsWithin_iff :
      (violations b action amount claim request_geo now day_total ≡ [])
      ↔ IsWithin b action amount claim request_geo now day_total
  violations-IsWithin_iff = (
    λ h.
        NoViolation-IsWithin
          (violations-NoViolation b action amount claim request_geo now day_total h),
    λ w.
        NoViolation-violations b action amount claim request_geo now day_total
          (IsWithin-NoViolation w),
  )
