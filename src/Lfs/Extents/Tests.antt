-- ===== src/Lfs/Extents/Tests.antt =====
-- A file of the extents 0–9 and 10–14.
use pfssim.Base.{ℕ, zero, suc, ◌≡◌, ◌<◌, refl, some, true, false, update, arith}
use pfssim.Lfs.Extents.{
  Extent, IsContiguous, Answers, ext_end, search, find_ext_entry, find_ext_entry-Answers,
}

abbrev two_extents : ℕ → Extent
two_extents =
    update (λ i. record { logistart = 0; phystart = 500; length = 10; accessed = true }) 1
      (record { logistart = 10; phystart = 900; length = 5; accessed = false })

follows : (i : ℕ) → suc i < 2 → (two_extents (suc i)).logistart ≡ ext_end (two_extents i)
follows zero h = refl
follows (suc i) h = absurd (omega arith)

two_extents-IsContiguous : IsContiguous two_extents 2
two_extents-IsContiguous = record { from_zero = refl; follows = follows }

find_ext_entry-Answers_example : Answers two_extents 1 12 (find_ext_entry (some two_extents) 2 12)
find_ext_entry-Answers_example = find_ext_entry-Answers two_extents 1 12 two_extents-IsContiguous

found_12 : find_ext_entry (some two_extents) 2 12 ≡ some 1
unfolding find_ext_entry search
found_12 = refl
