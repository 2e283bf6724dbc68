-- ===== src/Scheduler/Avatar/Rank.antt =====
-- `getValueByRank` of omnetpp/scheduler/I2L/AVATAR.cc, which `calculateStatistics` calls for the response
-- time of a rank: a selection sort, largest first, that stops at the rank. An array is the list of
-- the values that are not in their place yet.
pub mod Laws
mod Tests
use pfssim.Base.{
  ℕ, Bool, not, ◌||◌, Option, none, some, List, [], ◌∷◌, suc, zero, if◌then◌else◌, Arith, length,
}

module _ (F : Arith) where
  -- `y` is larger than what came before it: `h` takes its place unless a later one is larger still.
  pub placed :
      F.Double
      → F.Double
      → List F.Double
      → Option (F.Double × List F.Double)
      → Option (F.Double × List F.Double)
  placed h y ys none = some (y, h ∷ ys)
  placed h y ys (some (b, r)) = some (b, y ∷ r)

  pub held : F.Double → Option (F.Double × List F.Double) → Option (F.Double × List F.Double)
  held y none = none
  held y (some (b, r)) = some (b, y ∷ r)

  -- The inner loop from `ci` with `max`, and the swap: the largest value, the first of its like, and
  -- the rest with `h` in its place; `none` where no value is larger than `max`.
  pub place : F.Double → F.Double → List F.Double → Option (F.Double × List F.Double)
  unfolding placed held
  place h max [] = none
  place h max (y ∷ ys) =
      let larger = place h y ys in
      let kept = place h max ys in if F.lt max y then placed h y ys larger else held y kept

  pub chosen :
      F.Double → List F.Double → Option (F.Double × List F.Double) → F.Double × List F.Double
  chosen h ys none = (h, ys)
  chosen h ys (some b) = b

  -- One round of the outer loop at the value `h`.
  pub round : F.Double → List F.Double → F.Double × List F.Double
  unfolding chosen place
  round h ys = chosen h ys (place h h ys)

  -- The outer loop; `none` where `di` is past the values.
  pub select : ℕ → List F.Double → Option F.Double
  unfolding round
  select n [] = none
  select zero (x ∷ xs) = some (round x xs).0
  select (suc n) (x ∷ xs) = select n (round x xs).1

  -- `trunc` is the conversion of a double to an int, and `one` is 1.
  pub get_value_by_rank : (F.Double → ℕ) → F.Double → List F.Double → F.Double → Option F.Double
  unfolding select
  get_value_by_rank trunc one [] rank = some F.zero
  get_value_by_rank trunc one (x ∷ xs) rank =
      if F.lt one rank || not (F.lt F.zero rank)
      then some F.zero
      else select (trunc (F.mul (F.of_nat (length (x ∷ xs))) (F.sub one rank))) (x ∷ xs)
