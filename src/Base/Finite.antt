-- ===== src/Base/Finite.antt =====
-- Checks over all numbers below a bound, by evaluation.
use Prim.Native.Nat.{ℕ, zero, suc, ◌<◌}
use mathlib.Core.Path.{◌≡◌}
use mathlib.Core.Bool.{Bool, true, ◌&&◌}
use native.Mathlib.Omega.{arith}

module _ (test : ℕ → Bool) where
  -- The test holds of all numbers below the bound.
  unfoldable pub every_below : ℕ → Bool
  every_below zero = true
  every_below (suc bound) = every_below bound && test bound

  pub test_of_every_below : (bound k : ℕ) → k < bound → every_below bound ≡ true → test k ≡ true
  unfolding every_below
  test_of_every_below zero k below e = absurd (omega arith)
  test_of_every_below (suc bound) k below e = ground (arith, test_of_every_below bound k)
