-- ===== src/Cache/Trim.antt =====
-- `trimCache` (omnetpp/dserver/diskcache/DiskCache.cc) merges neighbours of the page table. Whether two
-- nodes are also neighbours in the LRU list is the argument `near`, since its links are left out.
use pfssim.Base.{
  ℕ, ◌≤◌, ◌≡◌, refl, ◌∙◌, inl, inr, Bool, true, false, not, ◌&&◌, List, [], ◌∷◌, ◌==◌,
  if◌then◌else◌, Bool-cases, length, arith,
}
use pfssim.Cache.{Flags, PageRange}
use pfssim.Cache.Ranges.{IsSorted, cached}
use pfssim.Cache.Ranges.Marks.{flags_at}

abbrev equal : Bool → Bool → Bool
equal true b = b
equal false b = not b

-- `attrcomp`, for ranges of one file.
attr_comp : Flags → Flags → Bool
attr_comp f g =
    f.count == g.count
    && equal f.dirty g.dirty
    && equal f.writeback g.writeback
    && equal f.locked g.locked
    && equal f.referenced g.referenced
    && equal f.modified g.modified

attr_comp-eq : (f g : Flags) → attr_comp f g ≡ true → f ≡ g
unfolding attr_comp
attr_comp-eq f g h = ground arith

module _ (near : PageRange → PageRange → Bool) where
  abbrev joins : PageRange → PageRange → Bool
  joins c d = attr_comp c.flags d.flags && c.end == d.start && near c d

  joins_facts : (c d : PageRange) → joins c d ≡ true → (c.flags ≡ d.flags) × (c.end ≡ d.start)
  joins_facts c d h = (attr_comp-eq c.flags d.flags (ground arith), ground arith)

  -- The loop at the node `c`.
  merge : PageRange → List PageRange → List PageRange
  merge c [] = c ∷ []
  merge c (d ∷ cs) =
      let joined = merge (record c { end = d.end }) cs in
      let rest = merge d cs in if joins c d then joined else c ∷ rest

  pub trim : List PageRange → List PageRange
  unfolding merge
  trim [] = []
  trim (c ∷ cs) = merge c cs

  -- What trimming keeps: the order, the number of pages, the flags of the page `p`.
  pub record Kept (b p : ℕ) (xs ys : List PageRange) : Type 0 where
    pub sorted : IsSorted b ys
    pub pages : cached ys ≡ cached xs
    pub flags : flags_at p ys ≡ flags_at p xs
    pub shorter : length ys ≤ length xs

  merge-Kept :
      (b p : ℕ) (c : PageRange) (cs : List PageRange)
      → IsSorted b (c ∷ cs)
      → Kept b p (c ∷ cs) (merge c cs)
  unfolding merge cached flags_at
  merge-Kept b p c [] o = record { sorted = o; pages = refl; flags = refl; shorter = omega arith }
  merge-Kept b p c (d ∷ cs) o = elim (Bool-cases (joins c d)) [
    | inl y ↦
        let k = merge-Kept b p (record c { end = d.end }) cs (o.0, omega arith, o.2.2) in
        rw y (record {
          sorted = k.sorted;
          pages = omega (arith, k.pages, (joins_facts c d y).1);
          flags = k.flags ∙ ground (arith, (joins_facts c d y).0, (joins_facts c d y).1);
          shorter = omega (arith, k.shorter);
        })
    | inr y ↦
        let k = merge-Kept c.end p d cs o.2 in
        rw y (record {
          sorted = (o.0, o.1, k.sorted);
          pages = omega (arith, k.pages);
          flags = rw (k.flags) refl;
          shorter = omega (arith, k.shorter);
        })
  ]

  -- `trimCache` ends; the table stays in order, with no more nodes, and every page keeps its flags,
  -- whichever neighbours are merged.
  pub trim-Kept : (b p : ℕ) (cs : List PageRange) → IsSorted b cs → Kept b p cs (trim cs)
  unfolding trim
  trim-Kept b p [] o = record { sorted = o; pages = refl; flags = refl; shorter = omega arith }
  trim-Kept b p (c ∷ cs) o = merge-Kept b p c cs o
