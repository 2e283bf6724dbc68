-- ===== src/Cache/Tests.antt =====
-- A file with the pages 2 to 5 clean and the pages 8 and 9 dirty in the cache.
use pfssim.Base.{
  ℕ, ◌+◌, ◌≡◌, refl, true, false, ◌&&◌, none, some, List, ◌++◌, [], ◌∷◌, ltb, leb, if◌then◌else◌,
  arith,
}
use pfssim.Cache.{Flags, PageRange, Counts, finished, walk, page_range, count_missing}
use pfssim.Cache.Ranges.{cached, Sound, IsSorted}
use pfssim.Cache.Ranges.Ample.{NotShort, walk-Sound}
use pfssim.Cache.Ranges.Marks.{flags_at, expected}
use pfssim.Cache.Ranges.Ends.{write_cache, read_disk, Present, Present-Marks}
use pfssim.Cache.Ranges.Dirty.{write_back, rewritten_pages_uncounted}
use pfssim.Cache.Ranges.Writes.{after_write, written, write-Writes}
use pfssim.Cache.Trim.{Kept, trim, trim-Kept}
use pfssim.Cache.Writeout.{File, set_writeout}
use pfssim.Cache.Writeout.Parts.{Parts, nodes}
use pfssim.Cache.Writeout.Laws.{StartsWith, ChosenWell, writable_all, set_writeout-chooses}
use pfssim.Cache.Reads.{read_cache, from_disk}
use pfssim.Cache.Reads.Laws.{Fits, read_cache-Fits, from_disk_finishes}

abbrev clean : Flags
clean = record {
  count = 0;
  dirty = false;
  writeback = false;
  locked = false;
  referenced = true;
  modified = false;
}

abbrev node : ℕ → ℕ → Flags → PageRange
node s e f = record { start = s; end = e; flags = f }

abbrev table : List PageRange
table = node 2 6 clean ∷ node 8 10 written ∷ []

table-IsSorted : IsSorted 0 table
table-IsSorted = omega arith

abbrev counts : Counts
counts = record { free_pages = 20; dirtied = 2; cleaned = 0 }

walk-Sound_example :
    Sound 0 (cached table + counts.free_pages) (walk write_cache (page_range 4 9 true) table counts)
    × NotShort (walk write_cache (page_range 4 9 true) table counts).status
walk-Sound_example =
    walk-Sound write_cache 0 (page_range 4 9 true) table counts table-IsSorted (omega arith)
      (omega arith) (λ g. omega arith)

write-Writes_example :
    let begun = walk write_cache (page_range 4 12 true) table counts in
    let ended = walk after_write (page_range 4 12 true) begun.pages begun.counts in
    (ended.status ≡ finished)
    × IsSorted 0 ended.pages
    × (begun.counts.free_pages + count_missing 4 12 table ≡ 20)
    × (flags_at 7 ended.pages ≡ (if leb 4 7 && ltb 7 12 then some written else flags_at 7 table))
write-Writes_example =
    write-Writes 4 12 0 table counts (omega arith) (omega arith) table-IsSorted (omega arith) 7

table-Present : Present (page_range 8 10 true) table
unfolding flags_at
table-Present p l h = ground arith

Present-Marks_example :
    let w = walk write_back (page_range 8 10 true) table counts in
    (w.status ≡ finished)
    × (flags_at 9 w.pages ≡ expected write_back (page_range 8 10 true) 9 (flags_at 9 table))
Present-Marks_example =
    Present-Marks write_back 0 9 (page_range 8 10 true) table counts refl table-IsSorted
      (omega arith) table-Present

abbrev split_table : List PageRange
split_table = node 2 4 clean ∷ node 4 6 clean ∷ node 8 10 written ∷ []

trim-Kept_example : Kept (λ c d. true) 0 5 split_table (trim (λ c d. true) split_table)
trim-Kept_example = trim-Kept (λ c d. true) 0 5 split_table (omega arith)

set_writeout-chooses_example :
    (us : List File) × (vs : List File) × (xs : List PageRange) × (us ++ vs
      ≡ (5, table) ∷ (7, node 0 2 written ∷ []) ∷ [])
    × StartsWith 7 vs
    × (set_writeout 7 3 ((5, table) ∷ (7, node 0 2 written ∷ []) ∷ []) ≡ some xs)
    × Parts xs (nodes (vs ++ us))
    × ChosenWell 3 (writable_all ((5, table) ∷ (7, node 0 2 written ∷ []) ∷ [])) xs
set_writeout-chooses_example =
    set_writeout-chooses 7 3 ((5, table) ∷ (7, node 0 2 written ∷ []) ∷ []) refl (omega arith)

read_cache-Fits_example : Fits 16 (some 4) 3 9 table 5 (read_cache 16 (some 4) 3 9 table)
read_cache-Fits_example =
    read_cache-Fits 16 (some 4) 3 9 0 table 5 (omega arith) table-IsSorted (omega arith)

from_gap : read_cache 16 none 6 9 table ≡ from_disk 6 8
unfolding read_cache
from_gap = refl

from_disk_finishes_example : (walk read_disk (page_range 6 8 false) table counts).status ≡ finished
from_disk_finishes_example =
    from_disk_finishes 16 none 6 9 0 table 6 8 counts (omega arith) table-IsSorted (omega arith)
      from_gap (omega arith)

table-clean : Present (page_range 2 6 true) table
unfolding flags_at
table-clean p l h = ground arith

rewritten_pages_uncounted_example :
    let w = walk write_cache (page_range 2 6 true) table counts in
    let v = walk write_back (page_range 2 6 true) w.pages w.counts in
    (w.counts.dirtied ≡ 2)
    × (w.counts.cleaned ≡ 0)
    × (v.counts.dirtied ≡ 2)
    × (v.counts.cleaned ≡ 0 + 4)
rewritten_pages_uncounted_example =
    rewritten_pages_uncounted 2 6 0 table counts (omega arith) (omega arith) table-IsSorted
      table-clean
