-- ===== src/Tests/Doubles.antt =====
-- Whole numbers that stand for doubles: 0, 8, 1000000, 1 and 100 are the literals.
use hyper_dpi.Prelude.{ℕ, ◌+◌, ◌*◌, ◌/◌, ltb, leb, arith}
use hyper_dpi.Stats.Double.{Double, IsOrdered}

instance abbrev pub whole : Double ℕ
whole = record {
  of_nat = λ n. n;
  add = λ a b. a + b;
  mul = λ a b. a * b;
  div = λ a b. a / b;
  lt = ltb;
  le = leb;
  nought = 0;
  eight = 8;
  million = 1000000;
  imbalance_ratio = 1;
  min_avg_pps = 100;
}

pub whole-IsOrdered : IsOrdered ℕ
whole-IsOrdered = record {
  lt_irrefl = λ x. ground arith;
  lt_trans = λ x y z h k. ground arith;
  around_nought = λ x y h. ground arith;
  div_nonneg = λ n x h. ground arith;
}
