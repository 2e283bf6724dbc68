-- ===== src/Base/Double.antt =====
-- The type `double` as the schedulers use it. The language leaves its arithmetic to the machine, so
-- it is a parameter: a carrier with the operations, and, apart from it, what the code relies on.
use Prim.Native.Nat.{ℕ}
use mathlib.Core.Path.{◌≡◌}
use mathlib.Core.Bool.{Bool, true, false}

pub record Arith : Type 1 where
  pub Double : Type 0
  pub zero : Double
  pub of_nat : ℕ → Double
  pub add : Double → Double → Double
  pub sub : Double → Double → Double
  pub mul : Double → Double → Double
  pub div : Double → Double → Double
  -- `a < b` and `a == b`
  pub lt : Double → Double → Bool
  pub eq : Double → Double → Bool

-- The order of the doubles that are not NaN: a strict order whose complement is transitive.
pub record IsOrder (F : Arith) : Type 0 where
  pub lt_irrefl : (a : F.Double) → F.lt a a ≡ false
  pub lt_asymm : (a b : F.Double) → F.lt a b ≡ true → F.lt b a ≡ false
  pub nlt_trans : (a b c : F.Double) → F.lt b a ≡ false → F.lt c b ≡ false → F.lt c a ≡ false

-- What the tags of fair queueing rely on, for finite doubles: a non-negative share does not lower a
-- tag, x - x is 0, and adding 0 changes nothing.
pub record IsTagArith (F : Arith) : Type 0 where
  pub order : IsOrder F
  pub of_nat_nonneg : (n : ℕ) → F.lt (F.of_nat n) F.zero ≡ false
  pub share_grows :
      (s w d : F.Double)
      → F.lt F.zero w ≡ true
      → F.lt d F.zero ≡ false
      → F.lt (F.add s (F.div d w)) s ≡ false
  pub sub_self : (a : F.Double) → F.sub a a ≡ F.zero
  pub add_zero : (a : F.Double) → F.add a F.zero ≡ a
