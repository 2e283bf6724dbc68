-- ===== src/Lfs/Ext3/Dispatch/Tests.antt =====
-- The extents 0–9 and 10–14 of a file.
use pfssim.Base.{ℕ, zero, suc, ◌≡◌, ◌<◌, refl, true, false, update, arith}
use pfssim.Lfs.Extents.{Extent, ext_end}

abbrev first : Extent
first = record { logistart = 0; phystart = 500; length = 10; accessed = true }

abbrev two_extents : ℕ → Extent
two_extents =
    update (λ i. first) 1 (record { logistart = 10; phystart = 900; length = 5; accessed = false })

follows : (i : ℕ) → suc i < 2 → (two_extents (suc i)).logistart ≡ ext_end (two_extents i)
follows zero h = refl
follows (suc i) h = absurd (omega arith)
