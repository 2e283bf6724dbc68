-- ===== src/Base/Arrays.antt =====
-- A C array whose cells are read and written by index, as a function.
use Prim.Native.Nat.{ℕ}
use pfssim.Base.Tests.{◌==◌, if◌then◌else◌}

-- `a[i] = v`
abbrev pub update {ℓ} : {A : Type ℓ} → (ℕ → A) → ℕ → A → ℕ → A
update a i v j = if j == i then v else a j
