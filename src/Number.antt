-- ===== src/Number.antt =====
-- Python's `float` and `decimal.Decimal`, which the program takes from the language: a type of
-- values with the operations that the code calls. No law is part of the interface; a theorem that
-- needs one takes `FloatLaws`, whose fields hold for IEEE 754 doubles, NaN included.
pub mod Fixed
use asset_embedding_protocol.Prelude.{
  ℕ, String, ◌≡◌, Bool, true, false, if◌then◌else◌, zero, suc, ◌+◌, ◌-◌, ◌*◌, ◌/◌, ◌%◌, ◌^◌, ◌≤◌,
  ◌<◌, refl, sym, ap, ◌∙◌, subst, ◌≢◌, ◌↔◌, ◌⊎◌, inl, inr, not, ◌&&◌, ◌||◌, Option, none, some,
  List, [], ◌∷◌, ◌++◌, map, arith, eq_iff, ltb, leb, ltb→lt, leb→le, tests, Eq, ◌==◌, nat_eq,
  string_eq, Bool-cases, Option-cases, &&_true, length, length-append, is_nonempty, All, All-append,
  All-map, contains, subset, Among, contains-Among, Among-contains, contains-subset,
  subset-nonempty,
}
use asset_embedding_protocol.Prelude.Int.{ℤ}

pub record Float (F : Type 0) : Type 0 where
  -- 0.0 and 1.0
  pub nought : F
  pub one : F
  -- the literal n / 10 ** k
  pub literal : ℕ → ℕ → F
  -- float(n) raises no OverflowError, and its value then
  pub fits : ℤ → Bool
  pub of_int : ℤ → F
  -- timedelta.total_seconds() of a number of microseconds
  pub total_seconds : ℤ → F
  pub add : F → F → F
  pub sub : F → F → F
  pub mul : F → F → F
  pub div : F → F → F
  -- sum(xs), whose rounding depends on the version of Python
  pub sum : List F → F
  -- `<`, `<=`, `==`, each false where an operand is NaN
  pub lt : F → F → Bool
  pub le : F → F → Bool
  pub eq : F → F → Bool
  -- round(x, k)
  pub round : F → ℕ → F
  -- math.isfinite(x), x.is_integer(), int(x)
  pub is_finite : F → Bool
  pub is_integer : F → Bool
  pub to_int : F → ℤ

pub record FloatLaws {F : Type 0} (f : Float F) : Type 0 where
  -- x > b and c <= b give x > c
  pub lt-le_trans : (b c x : F) → f.lt b x ≡ true → f.le c b ≡ true → f.lt c x ≡ true
  -- x == 0.0 excludes 0.0 < x
  pub lt_of_eq : (x : F) → f.eq x f.nought ≡ true → f.lt f.nought x ≡ false
  pub le_one : f.le f.one f.one ≡ true
  pub nought-le-one : f.le f.nought f.one ≡ true
  pub le_of_lt : (x y : F) → f.lt x y ≡ true → f.le x y ≡ true
  pub le_nought : f.le f.nought f.nought ≡ true
  -- 0.0 <= x gives x <= x, and 0.0 < x unless x == 0.0
  pub le_of_nonnegative : (x : F) → f.le f.nought x ≡ true → f.le x x ≡ true
  pub lt_of_nonnegative :
      (x : F) → f.le f.nought x ≡ true → f.eq x f.nought ≡ false → f.lt f.nought x ≡ true
  -- rounding to four places is monotonic, and keeps 0.0 and 1.0
  pub round_mono : (x y : F) → f.le x y ≡ true → f.le (f.round x 4) (f.round y 4) ≡ true
  pub round_nought : f.round f.nought 4 ≡ f.nought
  pub round_one : f.round f.one 4 ≡ f.one

module _ {F : Type 0} ⦃f : Float F⦄ where
  -- max(a, b) and min(a, b): the first argument, unless the second is strictly beyond it
  unfoldable pub max_float : F → F → F
  max_float a b = if f.lt a b then b else a

  unfoldable pub min_float : F → F → F
  min_float a b = if f.lt b a then b else a

-- `Decimal` with the conversion to `float` that the code reports by.
pub record Decimal (D F : Type 0) : Type 0 where
  pub times : D → D → D
  pub over : D → D → D
  pub to_float : D → F
