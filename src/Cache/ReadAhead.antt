-- ===== src/Cache/ReadAhead.antt =====
-- The read-ahead state of a file in omnetpp/dserver/diskcache/DiskCache.cc (`file_ra_state`): a current
-- window of pages, and an ahead window that follows it. -1 is `none`.
pub mod Windows
pub mod Runs
mod Tests
use pfssim.Base.{
  ℕ, zero, suc, ◌+◌, ◌-◌, ◌*◌, ◌/◌, Bool, true, false, not, ◌&&◌, ◌||◌, Option, none, some, List,
  [], ◌∷◌, ltb, leb, ◌==◌, if◌then◌else◌,
}
use mathlib.Core.Option

abbrev pub max_ra : ℕ
max_ra = 64

abbrev pub incache_ceiling : ℕ
incache_ceiling = 256

pub record ReadAhead : Type 0 where
  pub ra_pages : ℕ
  pub flag_miss : Bool
  pub flag_incache : Bool
  pub cache_hit : ℕ
  pub prev_page : Option ℕ
  pub start : ℕ
  pub size : Option ℕ
  pub ahead_start : ℕ
  pub ahead_size : ℕ
  pub start_io : Bool
  pub started_ra_range : ℕ

abbrev pub init : ReadAhead
init = record {
  ra_pages = 64;
  flag_miss = false;
  flag_incache = false;
  cache_hit = 0;
  prev_page = none;
  start = 0;
  size = some 0;
  ahead_start = 0;
  ahead_size = 0;
  start_io = false;
  started_ra_range = 0;
}

-- `while(tmp >>= 1 != 0) size *= 2`
pub doubled : ℕ → ℕ → ℕ → Option ℕ
doubled zero tmp size = none
doubled (suc fuel) tmp size =
    let rest = doubled fuel (tmp / 2) (size * 2) in if tmp / 2 == 0 then some size else rest

-- The size of the first window. For a length of 0 the loop shifts -1 for ever.
pub first_size : ℕ → ℕ → Option ℕ
unfolding doubled
first_size length ra_pages =
    if length == 0
    then none
    else Option.map (λ (z : ℕ). if ltb ra_pages z then ra_pages else z)
        (doubled length (length - 1) 2)

-- The size of a new ahead window after a window of the size `z`.
abbrev pub ahead_of : ReadAhead → ℕ → ℕ
ahead_of r z =
    if r.flag_miss
    then (if ltb 4 (z - 2) then z - 2 else 4)
    else if ltb max_ra (2 * z)
    then max_ra
    else 2 * z

-- An empty ahead window is set to follow the current one, whose size is `z`.
abbrev pub fill_ahead : ℕ → ReadAhead → ReadAhead
fill_ahead z r =
    if r.ahead_size == 0
    then record r { start_io = true; ahead_start = r.start + z; ahead_size = ahead_of r z }
    else r

-- The ahead window becomes the current one, and a new ahead window follows it.
abbrev pub replace : ReadAhead → ReadAhead
replace r = record r {
  start_io = true;
  start = r.ahead_start;
  size = some r.ahead_size;
  ahead_start = r.ahead_start + r.ahead_size;
  ahead_size = ahead_of r r.ahead_size;
}

abbrev pub next_page : Option ℕ → ℕ
next_page none = 0
next_page (some p) = p + 1

abbrev pub last_page : ℕ → ℕ → Option ℕ
last_page s length = if s + length == 0 then none else some (s + length - 1)

abbrev pub is_page : Option ℕ → ℕ → Bool
is_page none s = false
is_page (some p) s = s == p

abbrev pub is_none : Option ℕ → Bool
is_none none = true
is_none (some p) = false

-- A sequential access.
abbrev pub advance : ℕ → ℕ → ℕ → ReadAhead → ReadAhead
advance s length z r =
    let r' = fill_ahead z r in if ltb r'.ahead_start (s + length) then replace r' else r'

-- `page_cache_readahead` at a window of the given size and `RA_FLAG_INCACHE`. The branch that enables read-ahead again, for a
-- sequential access at a size of -1, is never reached: at -1 the function returns at once. `none`: it
-- does not return.
pub readahead_at : Option ℕ → Bool → ℕ → ℕ → ReadAhead → Option ReadAhead
unfolding first_size
readahead_at none incache s length r = some (record r { started_ra_range = 0 })
readahead_at (some z) true s length r = some (record r { started_ra_range = 0 })
readahead_at (some z) false s length r =
    if s == 0 && is_none r.prev_page
    then Option.map (λ (v : ℕ). record r { size = some v; prev_page = last_page 0 length })
        (first_size length r.ra_pages)
    else if is_page r.prev_page s && length == 1
    then some r
    else if s == next_page r.prev_page
    then some (record (advance s length z r) { prev_page = last_page s length })
    else some (record r {
      start = s;
      size = none;
      ahead_start = 0;
      ahead_size = 0;
      prev_page = last_page s length;
    })

pub page_cache_readahead : ℕ → ℕ → ReadAhead → Option ReadAhead
unfolding readahead_at
page_cache_readahead s length r = readahead_at r.size r.flag_incache s length r

-- The end of the request, which takes in the pages that are read ahead, these pages, and the state.
pub record Request : Type 0 where
  pub end : ℕ
  pub ahead : Option (ℕ × ℕ)
  pub ra : ReadAhead

abbrev pub size_of : Option ℕ → ℕ
size_of none = 0
size_of (some z) = z

abbrev pub start_ahead : ℕ → ReadAhead → ReadAhead
start_ahead e r =
    if ltb (r.start + size_of r.size) e && not r.start_io
    then replace (fill_ahead (size_of r.size) r)
    else r

pub ask : ℕ → ReadAhead → Request
ask e r =
    let ra_end = (if r.start_io then r.ahead_start + r.ahead_size else r.start + size_of r.size) in
    if ltb r.started_ra_range ra_end && ltb e ra_end
    then record {
      end = ra_end;
      ahead = some (e, ra_end);
      ra = record r { start_io = false; started_ra_range = ra_end };
    }
    else record { end = e; ahead = none; ra = record r { start_io = false } }

pub set_readahead : ℕ → ReadAhead → Request
unfolding ask
set_readahead e r =
    if is_none r.size || r.flag_incache
    then record { end = e; ahead = none; ra = record r { started_ra_range = 0 } }
    else ask e (start_ahead e r)

pub update_flag_incache : ℕ → Bool → ReadAhead → ReadAhead
update_flag_incache length hit r =
    if hit
    then (if leb incache_ceiling (r.cache_hit + length)
        then record r { flag_incache = true; ahead_start = 0; ahead_size = 0; cache_hit = 0 }
        else record r { cache_hit = r.cache_hit + length })
    else record r { cache_hit = 0; flag_incache = false }

-- What `handlePageReq` does with a read of the pages from `s` to before `e`.
pub prepare_read : ℕ → ℕ → ReadAhead → Option Request
unfolding page_cache_readahead set_readahead
prepare_read s e r = Option.map (set_readahead e) (page_cache_readahead s (e - s) r)
