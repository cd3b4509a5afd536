-- ===== src/Delegation/Containment.antt =====
-- `_containment_violation` against `check_boundaries`: a policy that is contained in another lets
-- through no request that the other refuses.
use asset_embedding_protocol.Prelude.{
  ℕ, String, ◌≡◌, refl, true, Option, none, some, List, [], ◌∷◌, map, arith, contains, subset,
  contains-subset, is_nonempty, Bool-cases, Option-cases, inl, inr, string_eq, ◌==◌, nat_eq,
}
use asset_embedding_protocol.Number.{Float, FloatLaws}
use asset_embedding_protocol.Text.{Codes, codes, codes_eq, strip, split_commas, is_nonempty-upper}
use asset_embedding_protocol.Models.{Boundaries, TimeWindow, Claim}
use asset_embedding_protocol.Boundaries.{
  truthy, normalized, permitted, action_violations, window_violations, geo_violations,
  class_violations, transaction_violations, day_violations, violations,
}
use asset_embedding_protocol.Boundaries.Admitted.{violations-NoViolation, NoViolation-violations}
use asset_embedding_protocol.Delegation.{
  geo_set, geo_contained, window_contained, list_contained, numeric_limit_contained,
  containment_violation, named_parts,
}

actions_contained :
    (ca pa cd pd : List String) (action : String)
    → list_contained ca pa ≡ true
    → subset pd cd ≡ true
    → action_violations cd ca action ≡ []
    → action_violations pd pa action ≡ []
unfolding list_contained action_violations
actions_contained ca pa cd pd action h k v =
    ground (arith, contains-subset action pd cd k, contains-subset action ca pa)

classes_contained :
    {D : Type 0} (child parent : List String) (claim : Option (Claim D))
    → list_contained child parent ≡ true
    → class_violations child claim ≡ []
    → class_violations parent claim ≡ []
unfolding list_contained class_violations
classes_contained child parent none h v = refl
classes_contained child parent (some c) h v =
    ground (arith, contains-subset c.asset_class child parent)

window_narrows :
    (child parent : Option TimeWindow) (now : ℕ)
    → window_contained child parent ≡ true
    → window_violations child now ≡ []
    → window_violations parent now ≡ []
unfolding window_contained window_violations
window_narrows child none now h v = refl
window_narrows none (some p) now h v = cc
window_narrows (some c) (some p) now h v = ground arith

is_nonempty-normalized : (p : Codes) → is_nonempty (normalized p) ≡ is_nonempty (strip p)
unfolding normalized
is_nonempty-normalized p = is_nonempty-upper (strip p)

-- A place that is not blank and that the parts of a text name is among its named parts.
contains-named_parts :
    (g : Codes) (ps : List Codes)
    → is_nonempty g ≡ true
    → contains g (map normalized ps) ≡ true
    → contains g (named_parts ps) ≡ true
unfolding contains named_parts
contains-named_parts g [] b h = h
contains-named_parts g (p ∷ ps) b h = elim (Bool-cases (normalized p == g)) [
  | inl same ↦
      let e : normalized p ≡ g = (codes_eq.beq_iff _ _).0 same in
      ground (arith, e, is_nonempty-normalized p)
  | inr other ↦ ground (arith, contains-named_parts g ps b)
]

named_parts-permitted :
    (g : Codes) (ps : List Codes)
    → contains g (named_parts ps) ≡ true
    → contains g (map normalized ps) ≡ true
unfolding contains named_parts
named_parts-permitted g [] h = h
named_parts-permitted g (p ∷ ps) h = ground (arith, named_parts-permitted g ps)

-- A request's place that is given and not blank.
abbrev pub IsNamed : Option String → Type 0
IsNamed request = (g : String) → truthy request ≡ some g → is_nonempty (normalized (codes g)) ≡ true

named_narrows :
    (g : Codes) (cs ps : List Codes)
    → is_nonempty g ≡ true
    → subset (named_parts cs) (named_parts ps) ≡ true
    → contains g (map normalized cs) ≡ true
    → contains g (map normalized ps) ≡ true
named_narrows g cs ps b s h =
    named_parts-permitted g ps
      (contains-subset g (named_parts cs) (named_parts ps) s (contains-named_parts g cs b h))

geo_narrows :
    (child parent request : Option String)
    → IsNamed request
    → geo_contained (geo_set child) (geo_set parent) ≡ true
    → geo_violations child request ≡ []
    → geo_violations parent request ≡ []
unfolding geo_contained geo_set geo_violations permitted
geo_narrows child parent request named h v = elim (Option-cases (truthy parent)) [
  | inl free ↦ ground arith
  | inr (p, ep) ↦ elim (Option-cases (truthy request)) [
    | inl absent ↦ ground arith
    | inr (g, eg) ↦ elim (Option-cases (truthy child)) [
      | inl free ↦ ground arith
      | inr (c, ec) ↦ ground (
        arith,
        named g eg,
        named_narrows (normalized (codes g)) (split_commas (codes c)) (split_commas (codes p)),
      )
    ]
  ]
]

module _ {F : Type 0} ⦃f : Float F⦄ where
  -- The seven tests that `_containment_violation` goes through.
  pub record Contained (child parent : Boundaries F) : Type 0 where
    pub allowed : list_contained child.allowed_actions parent.allowed_actions ≡ true
    pub denied : subset parent.denied_actions child.denied_actions ≡ true
    pub transaction :
        numeric_limit_contained child.monetary_limit.per_transaction
          parent.monetary_limit.per_transaction
        ≡ true
    pub day :
        numeric_limit_contained child.monetary_limit.per_day parent.monetary_limit.per_day ≡ true
    pub geo : geo_contained (geo_set child.geo_restriction) (geo_set parent.geo_restriction) ≡ true
    pub classes : list_contained child.asset_classes parent.asset_classes ≡ true
    pub window : window_contained child.time_window parent.time_window ≡ true

  containment_violation-Contained :
      (child parent : Boundaries F)
      → containment_violation child parent ≡ none
      → Contained child parent
  unfolding containment_violation
  containment_violation-Contained child parent h = ground arith

module _ {F : Type 0} ⦃f : Float F⦄ (laws : FloatLaws f) where
  transaction_narrows :
      (amount : Option F) (child parent : F)
      → numeric_limit_contained child parent ≡ true
      → transaction_violations amount child ≡ []
      → transaction_violations amount parent ≡ []
  unfolding numeric_limit_contained transaction_violations
  transaction_narrows none child parent h v = refl
  transaction_narrows (some x) child parent h v =
      ground (arith, laws.lt_of_eq parent, laws.lt-le_trans parent child x)

  day_narrows :
      (amount : Option F) (child parent total : F)
      → numeric_limit_contained child parent ≡ true
      → day_violations amount child total ≡ []
      → day_violations amount parent total ≡ []
  unfolding numeric_limit_contained day_violations
  day_narrows none child parent total h v = refl
  day_narrows (some x) child parent total h v =
      ground (arith, laws.lt_of_eq parent, laws.lt-le_trans parent child (f.add total x))

  -- If the child's authority is contained in the parent's, a request that breaks none of the child's
  -- boundaries breaks none of the parent's.
  pub contained-violations :
      {D : Type 0} (child parent : Boundaries F) (action : String) (amount : Option F)
      (claim : Option (Claim D)) (request_geo : Option String) (now : ℕ) (day_total : F)
      → IsNamed request_geo
      → containment_violation child parent ≡ none
      → violations child action amount claim request_geo now day_total ≡ []
      → violations parent action amount claim request_geo now day_total ≡ []
  contained-violations child parent action amount claim request_geo now day_total named h v =
      let c = containment_violation-Contained child parent h in
      let n = violations-NoViolation child action amount claim request_geo now day_total v in
      NoViolation-violations parent action amount claim request_geo now day_total (record {
        actions =
            actions_contained child.allowed_actions parent.allowed_actions child.denied_actions
              parent.denied_actions action c.allowed c.denied n.actions;
        transaction = transaction_narrows amount _ _ c.transaction n.transaction;
        day = day_narrows amount _ _ day_total c.day n.day;
        window = window_narrows child.time_window parent.time_window now c.window n.window;
        geo =
            geo_narrows child.geo_restriction parent.geo_restriction request_geo named c.geo n.geo;
        classes =
            classes_contained child.asset_classes parent.asset_classes claim c.classes n.classes;
      })
