-- ===== src/Base/Int.antt =====
-- Signed numbers: `negsuc n` is -(n + 1).
use Prim.Native.Nat.{ℕ}
use mathlib.Core.Bool.{Bool, true, false}
use pfssim.Base.Tests.{leb}

pub data ℤ : Type 0 where
  pos : ℕ → ℤ
  negsuc : ℕ → ℤ

-- `n >= z` for a count `n`.
abbrev pub reaches : ℕ → ℤ → Bool
reaches n (pos z) = leb z n
reaches n (negsuc z) = true

-- `z >= 0`.
abbrev pub is_nonneg : ℤ → Bool
is_nonneg (pos z) = true
is_nonneg (negsuc z) = false
