-- ===== src/Cache/Reads.antt =====
-- `readCache` (omnetpp/dserver/diskcache/DiskCache.cc) decides what a read does next: it goes over the
-- page table from the first page of the request that is not dealt with.
pub mod Laws
use pfssim.Base.{
  ℕ, ◌+◌, ◌-◌, Bool, true, false, ◌&&◌, Option, none, some, List, [], ◌∷◌, ltb, leb, ◌==◌,
  if◌then◌else◌,
}
use pfssim.Cache.{PageRange}

-- The read waits for a lock, schedules an access to the pages from one number to before another, or is
-- all done.
pub data Reading : Type 0 where
  waits : Reading
  from_disk : ℕ → ℕ → Reading
  from_cache : ℕ → ℕ → Reading
  all_done : Reading

-- `getAccessSize` for a read from the disk or from the cache.
unfoldable pub get_access_size : ℕ → ℕ → ℕ → Bool → ℕ
get_access_size diskread_batch start end incache =
    if incache
    then end - start
    else if ltb diskread_batch (end - start)
    then diskread_batch
    else end - start

abbrev pub disk_read : ℕ → ℕ → ℕ → Reading
disk_read batch s e = from_disk s (s + get_access_size batch s e false)

-- The pages of the request that are only read ahead: all of them from `readahead_list->start` on.
abbrev pub is_original : Option ℕ → ℕ → Bool
is_original none s = true
is_original (some ra) s = ltb s ra

abbrev pub covered : ℕ → PageRange → ℕ
covered e c = if ltb c.end e then c.end else e

-- A node with pages of the request, which is locked or not. `rest` is what is decided at the nodes after
-- it: pages that are read ahead and cached are skipped. The loop then stays at the node, which it leaves
-- in the next round unless nothing is left of the request.
unfoldable pub read_node : ℕ → Option ℕ → ℕ → ℕ → PageRange → Bool → Reading → Reading
unfolding get_access_size
read_node batch ra s e c true rest = waits
read_node batch ra s e c false rest =
    if ltb s c.start
    then disk_read batch s c.start
    else if is_original ra s
    then from_cache s (s + get_access_size batch s (covered e c) true)
    else if covered e c == e
    then all_done
    else rest

-- `s` and `e` are the start and the end of the request's range, `ra` the start of its read-ahead list.
unfoldable pub read_cache : ℕ → Option ℕ → ℕ → ℕ → List PageRange → Reading
unfolding read_node
read_cache batch ra s e [] = disk_read batch s e
read_cache batch ra s e (c ∷ cs) =
    let rest = read_cache batch ra (if leb c.end s then s else covered e c) e cs in
    if s == e
    then all_done
    else if leb c.end s
    then rest
    else if leb e c.start
    then disk_read batch s e
    else read_node batch ra s e c c.flags.locked rest
