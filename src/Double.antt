-- ===== src/Double.antt =====
-- The operations on `double` that the code uses. The arithmetic itself is not modelled: a theorem
-- that needs one of its laws takes it as a hypothesis.
use cscore_sstelem.Prelude.{ℕ, ◌+◌, ◌-◌, ◌*◌, ◌/◌, Bool, if◌then◌else◌, ltb, leb}

pub record Double (D : Type 0) : Type 0 where
  pub of_nat : ℕ → D
  pub add : D → D → D
  pub sub : D → D → D
  pub mul : D → D → D
  pub div : D → D → D
  pub lt : D → D → Bool
  pub le : D → D → Bool

module _ {D : Type 0} ⦃d : Double D⦄ where
  abbrev pub nought : D
  nought = d.of_nat 0

  -- `std::min(a, b)`, `std::max(a, b)` and `std::clamp(v, lo, hi)`, by the comparisons that the C++
  -- standard gives them.
  abbrev pub min_double : D → D → D
  min_double a b = if d.lt b a then b else a

  abbrev pub max_double : D → D → D
  max_double a b = if d.lt a b then b else a

  abbrev pub clamp : D → D → D → D
  clamp v lo hi = if d.lt v lo then lo else if d.lt hi v then hi else v

-- Whole numbers, for the tests.
instance abbrev pub nat_double : Double ℕ
nat_double = record {
  of_nat = λ n. n;
  add = λ a b. a + b;
  sub = λ a b. a - b;
  mul = λ a b. a * b;
  div = λ a b. a / b;
  lt = ltb;
  le = leb;
}
