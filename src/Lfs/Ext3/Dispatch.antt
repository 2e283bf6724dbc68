-- ===== src/Lfs/Ext3/Dispatch.antt =====
-- `dispatchNext` (omnetpp/dserver/lfs/EXT3.cc): new extents, and the blocks of an access.
mod Tests
use native.Mathlib.Decide.{dec_lt}
use pfssim.Base.{
  ℕ, zero, suc, ◌+◌, ◌-◌, ◌≤◌, ◌<◌, ◌≡◌, refl, sym, ap, subst, ◌∙◌, inl, inr, Bool, true, false,
  Option, none, some, Bool-cases, ltb, ◌==◌, ==_iff, ==_refl, if◌then◌else◌, update, arith,
}
use pfssim.Lfs.Extents.{Extent, IsContiguous, Holds, ext_end}
use pfssim.Lfs.Ext3.{allocate, blocks}

update_same : (xs : ℕ → Extent) (i : ℕ) (x : Extent) → update xs i x i ≡ x
update_same xs i x = rw (==_refl i) refl

update_other : (xs : ℕ → Extent) (i : ℕ) (x : Extent) (j : ℕ) → j < i → update xs i x j ≡ xs j
update_other xs i x j h = rw (differs j i h) refl
  where
    differs : (j i : ℕ) → j < i → (j == i) ≡ false
    differs j i h = ground arith

-- An extent that is allocated at the end of a file that has extents keeps the file's extents one after the other from
-- address 0, and holds the address that it was allocated for, where new extents have a size.
pub allocate-IsContiguous :
    (xs : ℕ → Extent) (last size gap : ℕ)
    → IsContiguous xs (suc last)
    → 0 < size
    → let xs' = allocate size gap (ext_end (xs last)) (suc last) xs in
      IsContiguous xs' (suc (suc last)) × Holds xs' (suc (suc last)) (ext_end (xs last)) (suc last)
unfolding allocate
allocate-IsContiguous xs last size gap c pos = (
  record {
    from_zero = ap (λ x. x.logistart) (update_other xs (suc last) _ 0 (omega arith)) ∙ c.from_zero;
    follows = λ i h. elim (dec_lt (suc i) (suc last)) [
      | yes old ↦
          ap (λ x. x.logistart) (update_other xs (suc last) _ (suc i) old)
          ∙ c.follows i old
          ∙ sym (ap (λ x. ext_end x) (update_other xs (suc last) _ i (omega arith)))
      | no new ↦ at_new i (omega arith)
    ];
  },
  (
    omega arith,
    omega (arith, ap (λ x. x.logistart) (update_same xs (suc last) new_extent)),
    omega (
      arith,
      ap (λ x. x.logistart) (update_same xs (suc last) new_extent),
      ap (λ x. x.length) (update_same xs (suc last) new_extent),
    ),
  ),
)
  where
    new_extent : Extent
    new_extent = record {
      logistart = ext_end (xs last);
      phystart = (xs last).phystart + gap;
      length = size;
      accessed = false;
    }

    at_new :
        (i : ℕ)
        → last ≡ i
        → (update xs (suc last) new_extent (suc i)).logistart
          ≡ ext_end (update xs (suc last) new_extent i)
    at_new i e =
        subst
          (λ k.
            (update xs (suc last) new_extent (suc k)).logistart
            ≡ ext_end (update xs (suc last) new_extent k))
          e
          (ap (λ x. x.logistart) (update_same xs (suc last) new_extent)
            ∙ sym (ap (λ x. ext_end x) (update_other xs (suc last) new_extent last (omega arith))))

-- What an access reads of a range that starts in an extent: without its mark, the one block before
-- the extent; else the blocks of the range that lie in the extent, at least one and all of them if
-- the range ends in it, as far from the extent's start on the disk as the range is in the file.
pub blocks-inside :
    (x : Extent) (start end : ℕ)
    → x.logistart ≤ start
    → start < ext_end x
    → start < end
    → 0 < x.phystart
    → let (from, to, is_data) = blocks x start end in
      (is_data ≡ x.accessed)
      × (x.accessed ≡ false → (from + 1 ≡ x.phystart) × (to ≡ x.phystart))
      × (x.accessed ≡ true
          → (from + x.logistart ≡ start + x.phystart)
            × (from < to)
            × (to ≤ x.phystart + x.length)
            × (to + start ≤ from + end)
            × (end ≤ ext_end x → to + start ≡ from + end))
unfolding blocks
blocks-inside x start end low high some_blocks pos = elim (Bool-cases x.accessed) [
  | inl marked ↦ rw marked (
    refl,
    (λ n. ground (arith, n)),
    λ y. (omega arith, ground arith, ground arith, ground arith, λ h. ground arith),
  )
  | inr unmarked ↦ rw unmarked (refl, (λ n. (omega arith, omega arith)), λ y. ground (arith, y))
]
