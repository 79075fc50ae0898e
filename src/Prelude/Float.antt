-- ===== src/Prelude/Float.antt =====
-- The float64 operations that the source uses. Go's floats are not in the repository, so they are a
-- parameter; the laws are those of IEEE 754 comparisons, which hold for NaN too.
use mathlib.Core.Path.{◌≡◌}
use mathlib.Core.Bool.{Bool, true, false}
use riskforge.Prelude.Int.{ℤ}

pub record Float : Type 1 where
  pub F : Type 0
  pub le : F → F → Bool
  pub add : F → F → F
  pub sub : F → F → F
  pub mul : F → F → F
  pub div : F → F → F
  pub of_int : ℤ → F
  pub tenth : F  -- 0.1
  pub max_float : F  -- math.MaxFloat64

-- The order of floats, for the code that only compares.
pub record FloatOrder (F : Type 0) : Type 0 where
  pub lt : F → F → Bool
  pub same : F → F → Bool
  pub lt_irrefl : (a : F) → lt a a ≡ false
  pub lt_trans : (a b c : F) → lt a b ≡ true → lt b c ≡ true → lt a c ≡ true
  pub same_lt : (a b c : F) → same a b ≡ true → lt b c ≡ true → lt a c ≡ true
  pub lt_same : (a b c : F) → lt a b ≡ true → same b c ≡ true → lt a c ≡ true
  pub same_trans : (a b c : F) → same a b ≡ true → same b c ≡ true → same a c ≡ true
