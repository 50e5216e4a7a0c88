-- ===== src/Std/Float64.antt =====
-- `float64`, which the checker has no arithmetic for: the type, its operations and the conversions
-- that the program uses, as a parameter.
use hash256_miner.Base.{ℕ, ◌*◌, ◌/◌, Bool, ltb, leb, ◌==◌, ℤ, pos}

pub record Float64 : Type 1 where
  pub F : Type 0
  pub literal : ℕ → ℕ → F  -- the constant `a / b` of the source: 2.5 is `literal 25 10`
  pub of_ℕ : ℕ → F  -- float64(n)
  pub fmul : F → F → F
  pub fdiv : F → F → F
  pub feq : F → F → Bool
  pub flt : F → F → Bool
  pub fle : F → F → Bool
  pub to_uint64 : F → ℕ  -- uint64(f)
  pub big_product : F → F → ℤ  -- the integer part of the product as a big.Float

-- Thousandths, which serve for small values in the tests.
abbrev pub thousandths : Float64
thousandths = record {
  F = ℕ;
  literal = λ a b. a * 1000 / b;
  of_ℕ = λ n. n * 1000;
  fmul = λ a b. a * b / 1000;
  fdiv = λ a b. a * 1000 / b;
  feq = λ a b. a == b;
  flt = ltb;
  fle = leb;
  to_uint64 = λ a. a / 1000;
  big_product = λ a b. pos (a * b / 1000000);
}
