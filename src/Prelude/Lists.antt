-- ===== src/Prelude/Lists.antt =====
-- Lists measured by native numbers, membership as a test, and predicates over the elements.
use Prim.Native.Nat.{ℕ, suc, ◌+◌}
use mathlib.Core.Path.{◌≡◌, refl}
use mathlib.Core.Logic.{◌⊎◌, inl, inr}
use mathlib.Core.List.{List, [], ◌∷◌, ◌++◌}
use mathlib.Core.Bool.{Bool, true, false, ◌&&◌, ◌||◌}
use native.Mathlib.Omega.{arith}
use asset_embedding_protocol.Prelude.Tests.{Eq, ◌==◌, Bool-cases}

module _ {ℓ} {A : Type ℓ} where
  abbrev pub length : List A → ℕ
  length [] = 0
  length (x ∷ xs) = suc (length xs)

  pub length-append : (xs ys : List A) → length (xs ++ ys) ≡ length xs + length ys
  length-append [] ys = omega arith
  length-append (x ∷ xs) ys = omega (arith, length-append xs ys)

  -- bool(l)
  abbrev pub is_nonempty : List A → Bool
  is_nonempty [] = false
  is_nonempty (x ∷ xs) = true

  -- Every element satisfies the predicate.
  abbrev pub All {κ} : (A → Type κ) → List A → Type κ
  All P [] = Unit
  All P (x ∷ xs) = P x × All P xs

  pub All-append {κ} : (P : A → Type κ) (xs ys : List A) → All P xs → All P ys → All P (xs ++ ys)
  All-append P [] ys h k = k
  All-append P (x ∷ xs) ys h k = (h.0, All-append P xs ys h.1 k)

  pub All-map {κ μ} :
      {P : A → Type κ} {Q : A → Type μ}
      → ((x : A) → P x → Q x)
      → (xs : List A) → All P xs
      → All Q xs
  All-map f [] h = tt
  All-map f (x ∷ xs) h = (f x h.0, All-map f xs h.1)

module _ {ℓ} {A : Type ℓ} ⦃e : Eq A⦄ where
  -- x in l
  unfoldable pub contains : A → List A → Bool
  contains x [] = false
  contains x (y ∷ ys) = (y == x) || contains x ys

  -- set(a) <= set(b)
  unfoldable pub subset : List A → List A → Bool
  subset [] ys = true
  subset (x ∷ xs) ys = contains x ys && subset xs ys

  pub contains-subset :
      (x : A) (xs ys : List A) → subset xs ys ≡ true → contains x xs ≡ true → contains x ys ≡ true
  unfolding contains subset
  contains-subset x [] ys s h = ground arith
  contains-subset x (z ∷ zs) ys s h = elim (Bool-cases (z == x)) [
    | inl same ↦ ground (arith, e.beq_iff z x)
    | inr other ↦ ground (arith, contains-subset x zs ys)
  ]

  pub subset-nonempty :
      (xs ys : List A) → subset xs ys ≡ true → is_nonempty xs ≡ true → is_nonempty ys ≡ true
  unfolding contains subset
  subset-nonempty [] ys s h = ground arith
  subset-nonempty (x ∷ xs) [] s h = ground arith
  subset-nonempty (x ∷ xs) (y ∷ ys) s h = refl

  pub subset-cons : (y : A) (xs ys : List A) → subset xs ys ≡ true → subset xs (y ∷ ys) ≡ true
  unfolding contains subset
  subset-cons y [] ys h = refl
  subset-cons y (x ∷ xs) ys h = ground (arith, subset-cons y xs ys)

  pub subset_refl : (xs : List A) → subset xs xs ≡ true
  unfolding contains subset
  subset_refl [] = refl
  subset_refl (x ∷ xs) =
      ground (arith, (e.beq_iff x x).1 refl, subset-cons x xs xs (subset_refl xs))

module _ {A : Type 0} where
  -- Membership with the place kept.
  abbrev pub Among : A → List A → Type 0
  Among x [] = ⊥
  Among x (y ∷ ys) = (y ≡ x) ⊎ Among x ys

module _ {A : Type 0} ⦃e : Eq A⦄ where
  pub contains-Among : (x : A) (xs : List A) → contains x xs ≡ true → Among x xs
  unfolding contains
  contains-Among x [] h = cc
  contains-Among x (y ∷ ys) h = elim (Bool-cases (y == x)) [
    | inl same ↦ inl ((e.beq_iff y x).0 same)
    | inr other ↦ inr (contains-Among x ys (ground arith))
  ]

  pub Among-contains : (x : A) (xs : List A) → Among x xs → contains x xs ≡ true
  unfolding contains
  Among-contains x (y ∷ ys) (inl same) = ground (arith, (e.beq_iff y x).1 same)
  Among-contains x (y ∷ ys) (inr there) = ground (arith, Among-contains x ys there)
  Among-contains x [] h = elim h [ ]
