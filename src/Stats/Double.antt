-- ===== src/Stats/Double.antt =====
-- What src/stats.c does with a `double`, and the few facts of its order that hold of every double,
-- NaN and the infinities included.
use hyper_dpi.Prelude.{ℕ, ◌≡◌, ◌⊎◌, Bool, true, false}

pub record Double (W : Type 0) : Type 0 where
  -- `(double)n`.
  pub of_nat : ℕ → W
  pub add : W → W → W
  pub mul : W → W → W
  pub div : W → W → W
  -- `<`, and `<=`.
  pub lt : W → W → Bool
  pub le : W → W → Bool
  -- The literals 0, 8.0, 1e6, 1.25 and 100.0.
  pub nought : W
  pub eight : W
  pub million : W
  pub imbalance_ratio : W
  pub min_avg_pps : W

pub record IsOrdered (W : Type 0) ⦃d : Double W⦄ : Type 0 where
  pub lt_irrefl : (x : W) → d.lt x x ≡ false
  pub lt_trans : (x y z : W) → d.lt x y ≡ true → d.lt y z ≡ true → d.lt x z ≡ true
  pub around_nought :
      (x y : W) → d.lt x y ≡ true → (d.lt x d.nought ≡ true) ⊎ (d.lt d.nought y ≡ true)
  -- A count divided by a positive time is not negative.
  pub div_nonneg :
      (n : ℕ) (x : W) → d.lt d.nought x ≡ true → d.lt (d.div (d.of_nat n) x) d.nought ≡ false
