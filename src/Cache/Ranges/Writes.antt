-- ===== src/Cache/Ranges/Writes.antt =====
-- A write to the cache (omnetpp/dserver/diskcache/DiskCache.cc): `scheduleCacheAccess` walks the table
-- before it, and `handleCacheAccessResp` after it.
use pfssim.Base.{
  ℕ, ◌+◌, ◌-◌, ◌≤◌, ◌<◌, ◌≡◌, refl, ◌∙◌, inl, inr, true, false, ◌&&◌, Option, none, some, List, ltb,
  leb, if◌then◌else◌, Bool-cases,
}
use pfssim.Cache.{
  Access, Flags, PageRange, Counts, Walked, finished, walk, page_range, count_missing, fresh, mark,
}
use pfssim.Cache.Ranges.{IsSorted, walk_lem}
use pfssim.Cache.Ranges.Marks.{flags_at, expected, expected-ne-none, touched, walk-Marks}
use pfssim.Cache.Ranges.Ends.{write_cache, write_finishes, Present-finishes, Present}
use pfssim.Cache.Ranges.Missing.{write-count_missing}

abbrev pub after_write : Access
after_write = record { preop = false; disk = false; read = false }

-- Dirty, unlocked and not in use.
abbrev pub written : Flags
written = record {
  count = 0;
  dirty = true;
  writeback = false;
  locked = false;
  referenced = true;
  modified = true;
}

touched_twice :
    (s e : ℕ) (o : Option Flags)
    → let f = (page_range s e true).flags in
      touched after_write f (touched write_cache f o) ≡ some written
unfolding touched fresh mark
touched_twice s e none = refl
touched_twice s e (some g) = refl

module _ (s e b : ℕ) (cs : List PageRange) (k : Counts) (l : b ≤ s) (h : s < e) (o : IsSorted b cs)
    (free : e - s ≤ k.free_pages) where
  abbrev begun : Walked
  begun = walk write_cache (page_range s e true) cs k

  abbrev ended : Walked
  ended = walk after_write (page_range s e true) begun.pages begun.counts

  begun-flags :
      (p : ℕ)
      → flags_at p begun.pages ≡ expected write_cache (page_range s e true) p (flags_at p cs)
  begun-flags p =
      walk-Marks write_cache p b (page_range s e true) cs k refl o h
        (write_finishes (page_range s e true) cs k h free)

  begun-IsSorted : IsSorted b begun.pages
  begun-IsSorted = (walk_lem write_cache b (page_range s e true) cs k o l h).0

  begun-Present : Present (page_range s e true) begun.pages
  begun-Present p l' u =
      rw (begun-flags p) (expected-ne-none write_cache (page_range s e true) p (flags_at p cs) l' u)

  twice :
      (p : ℕ)
      → expected after_write (page_range s e true) p (flags_at p begun.pages)
        ≡ (if leb s p && ltb p e then some written else flags_at p cs)
  unfolding expected
  twice p = elim (Bool-cases (leb s p && ltb p e)) [
    | inl y ↦ rw (begun-flags p, y) (touched_twice s e (flags_at p cs))
    | inr y ↦ rw (begun-flags p, y) refl
  ]

  -- With as many free pages as the write has pages, the walks before and after it end without an
  -- error. Then all pages of the write are cached, dirty and unlocked, all others are as before, the
  -- table is in order, and the first walk took as many free pages as pages were missing.
  pub write-Writes :
      (p : ℕ)
      → (ended.status ≡ finished)
        × IsSorted b ended.pages
        × (begun.counts.free_pages + count_missing s e cs ≡ k.free_pages)
        × (flags_at p ended.pages ≡ (if leb s p && ltb p e then some written else flags_at p cs))
  unfolding expected
  write-Writes p = (
    done,
    (walk_lem after_write b (page_range s e true) begun.pages begun.counts begun-IsSorted l h).0,
    write-count_missing (page_range s e true) cs k h free,
    walk-Marks after_write p b (page_range s e true) begun.pages begun.counts refl begun-IsSorted h
          done
        ∙ twice p,
  )
    where
      done : ended.status ≡ finished
      done =
          Present-finishes after_write b (page_range s e true) begun.pages begun.counts refl
            begun-IsSorted h begun-Present
