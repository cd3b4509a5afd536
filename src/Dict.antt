-- ===== src/Dict.antt =====
-- Python's `dict` with string keys: iteration goes in the order of insertion, `d[k] = v` keeps the
-- place of a key that is there and appends a new one, `del` and `pop` remove the entry.
pub mod Laws
use asset_embedding_protocol.Prelude.{
  String, Bool, Option, none, some, true, false, List, [], ◌∷◌, map, ◌==◌, string_eq, if◌then◌else◌,
  ℕ, zero, suc, ◌+◌, ◌-◌, ◌*◌, ◌/◌, ◌%◌, ◌^◌, ◌≤◌, ◌<◌, ◌≡◌, refl, sym, ap, ◌∙◌, subst, ◌≢◌, ◌↔◌,
  ◌⊎◌, inl, inr, not, ◌&&◌, ◌||◌, ◌++◌, arith, eq_iff, ltb, leb, ltb→lt, leb→le, tests, Eq, nat_eq,
  Bool-cases, Option-cases, &&_true, length, length-append, is_nonempty, All, All-append, All-map,
  contains, subset, Among, contains-Among, Among-contains, contains-subset, subset-nonempty,
}

abbrev pub Dict {ℓ} : Type ℓ → Type ℓ
Dict V = List (String × V)

module _ {ℓ} {V : Type ℓ} where
  -- d.get(k)
  unfoldable pub get : String → Dict V → Option V
  get k [] = none
  get k ((j, v) ∷ d) = if j == k then some v else get k d

  -- d[k] = v
  unfoldable pub put : String → V → Dict V → Dict V
  put k v [] = (k, v) ∷ []
  put k v ((j, w) ∷ d) = if j == k then (j, v) ∷ d else (j, w) ∷ put k v d

  -- d.pop(k, None), del d[k]; in a dict a key stands once
  unfoldable pub remove : String → Dict V → Dict V
  remove k [] = []
  remove k ((j, w) ∷ d) = let rest = remove k d in if j == k then rest else (j, w) ∷ rest

  abbrev pub is_some : Option V → Bool
  is_some none = false
  is_some (some v) = true

  -- k in d
  abbrev pub has : String → Dict V → Bool
  has k d = is_some (get k d)

  -- d.values()
  abbrev pub values : Dict V → List V
  values = map (λ e. e.1)
