-- ===== src/Base/Float.antt =====
-- The binary64 numbers, which the source takes from the machine: a type with its comparisons and
-- operations. `lit m e` is the literal m / 10^e. Every comparison with a NaN is false, so the orders
-- are not total; what is stated of them holds of NaNs too.
use perpcity_rust_sdk.Base.{ℕ, ◌*◌, ◌+◌, ◌-◌, ◌/◌, ◌^◌, ◌≡◌, Bool, true, false, ltb, leb, arith}

pub record Float : Type 1 where
  pub F : Type 0
  pub lt : F → F → Bool
  pub le : F → F → Bool
  pub add : F → F → F
  pub sub : F → F → F
  pub mul : F → F → F
  pub lit : ℕ → ℕ → F

-- IEEE 754: `<` implies `<=`, both are transitive, and nothing is below itself.
pub record IsOrdered (fl : Float) : Type 0 where
  pub le_of_lt : (a b : fl.F) → fl.lt a b ≡ true → fl.le a b ≡ true
  pub le_trans : (a b c : fl.F) → fl.le a b ≡ true → fl.le b c ≡ true → fl.le a c ≡ true
  pub lt_trans : (a b c : fl.F) → fl.lt a b ≡ true → fl.lt b c ≡ true → fl.lt a c ≡ true
  pub lt_irrefl : (a : fl.F) → fl.lt a a ≡ false

-- Thousandths: numbers with three decimals, for evaluation.
abbrev pub thousandths : Float
thousandths = record {
  F = ℕ;
  lt = ltb;
  le = leb;
  add = λ a b. a + b;
  sub = λ a b. a - b;
  mul = λ a b. a * b / 1000;
  lit = λ m e. m * 1000 / 10 ^ e;
}

pub thousandths-IsOrdered : IsOrdered thousandths
thousandths-IsOrdered = record {
  le_of_lt = λ a b h. ground arith;
  le_trans = λ a b c h k. ground arith;
  lt_trans = λ a b c h k. ground arith;
  lt_irrefl = λ a. ground arith;
}
