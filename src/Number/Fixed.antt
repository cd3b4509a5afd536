-- ===== src/Number/Fixed.antt =====
-- A `Float` that runs: numbers in ten-thousandths, subtraction stopping at 0. It meets `FloatLaws`,
-- and the examples compute with it.
use asset_embedding_protocol.Prelude.{
  ℕ, ◌+◌, ◌-◌, ◌*◌, ◌/◌, ◌%◌, ◌^◌, refl, true, arith, ltb, leb, ◌==◌, nat_eq, string_eq, List, [],
  ◌∷◌,
}
use asset_embedding_protocol.Prelude.Int.{pos, pos_part}
use asset_embedding_protocol.Number.{Float, FloatLaws, Decimal}

abbrev sum : List ℕ → ℕ
sum [] = 0
sum (x ∷ xs) = x + sum xs

instance abbrev pub fixed : Float ℕ
fixed = record {
  nought = 0;
  one = 10000;
  literal = λ n k. n * 10000 / 10 ^ k;
  fits = λ n. ltb (pos_part n) 1000000000000;
  of_int = λ n. pos_part n * 10000;
  total_seconds = λ n. pos_part n / 100;
  add = λ a b. a + b;
  sub = λ a b. a - b;
  mul = λ a b. a * b / 10000;
  div = λ a b. a * 10000 / b;
  sum = sum;
  lt = ltb;
  le = leb;
  eq = λ a b. a == b;
  round = λ a k. a;
  is_finite = λ a. true;
  is_integer = λ a. a % 10000 == 0;
  to_int = λ a. pos (a / 10000);
}

pub fixed_laws : FloatLaws fixed
fixed_laws = record {
  lt-le_trans = λ b c x p q. ground arith;
  lt_of_eq = λ x p. ground arith;
  le_one = refl;
  nought-le-one = refl;
  le_of_lt = λ x y p. ground arith;
  le_nought = refl;
  le_of_nonnegative = λ x p. ground arith;
  lt_of_nonnegative = λ x p q. ground (arith, nat_eq.beq_iff x 0);
  round_mono = λ x y p. p;
  round_nought = refl;
  round_one = refl;
}

instance abbrev pub fixed_decimal : Decimal ℕ ℕ
fixed_decimal = record {
  times = λ a b. a * b / 10000;
  over = λ a b. a * 10000 / b;
  to_float = λ a. a;
}
