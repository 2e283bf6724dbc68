-- ===== src/Cache/ReadAhead/Runs.antt =====
-- Any sequence of reads and accesses at the read-ahead state of
-- omnetpp/dserver/diskcache/DiskCache.cc.
use pfssim.Base.{
  ℕ, ◌-◌, ◌<◌, ◌≡◌, refl, ap, Bool, true, Option, none, some, List, [], ◌∷◌, ◌++◌, All, to_list,
  arith,
}
use mathlib.Core.Option
use pfssim.Cache.ReadAhead.{
  ReadAhead, Request, is_none, page_cache_readahead, readahead_at, set_readahead,
  update_flag_incache, prepare_read,
}
use pfssim.Cache.ReadAhead.Windows.{
  IsWindowed, prepare_read-Prepared, update_flag_incache-IsWindowed,
}

-- A request for the pages from `s` to before `e`, or an access that hits or misses the cache.
pub data Event : Type 0 where
  asks : ℕ → ℕ → Event
  accesses : ℕ → Bool → Event

abbrev pub IsRequest : Event → Type 0
IsRequest (asks s e) = s < e
IsRequest (accesses length hit) = Unit

-- The pages that are to be read ahead, and the state after the events.
abbrev pub Outcome : Type 0
Outcome = Option (List (ℕ × ℕ) × ReadAhead)

abbrev also : Option (ℕ × ℕ) → Outcome → Outcome
also o = Option.map (λ (x : List (ℕ × ℕ) × ReadAhead). (to_list o ++ x.0, x.1))

asked : Option Request → (ReadAhead → Outcome) → Outcome
asked none next = none
asked (some q) next = also q.ahead (next q.ra)

pub run : List Event → ReadAhead → Outcome
unfolding asked
run [] r = some ([], r)
run (asks s e ∷ es) r = asked (prepare_read s e r) (λ r'. run es r')
run (accesses length hit ∷ es) r = run es (update_flag_incache length hit r)

-- Any events, with requests that are not empty, are handled to the end and keep the windows in order.
pub run-IsWindowed :
    (es : List Event) (r : ReadAhead)
    → All IsRequest es
    → IsWindowed r
    → (o : List (ℕ × ℕ)) × (r' : ReadAhead) × (run es r ≡ some (o, r')) × IsWindowed r'
unfolding run
run-IsWindowed [] r a w = ([], r, refl, w)
run-IsWindowed (asks s e ∷ es) r a w =
    let (q, h, p) = prepare_read-Prepared s e r a.0 w in
    let (o, r', g, v) = run-IsWindowed es q.ra a.1 (p.windows) in
    (to_list q.ahead ++ o, r', rw (h, g) refl, v)
run-IsWindowed (accesses length hit ∷ es) r a w =
    run-IsWindowed es (update_flag_incache length hit r) a.1
      (update_flag_incache-IsWindowed length hit r w)

abbrev off : ℕ → ℕ → ReadAhead → Request
off s e r = record { end = e; ahead = none; ra = record r { started_ra_range = 0 } }

readahead_at-off :
    (o : Option ℕ) (b : Bool) (s length : ℕ) (r : ReadAhead)
    → o ≡ none
    → readahead_at o b s length r ≡ some (record r { started_ra_range = 0 })
unfolding readahead_at
readahead_at-off none b s length r h = refl
readahead_at-off (some z) b s length r h = cc

set_readahead-off :
    (e : ℕ) (r : ReadAhead)
    → is_none r.size ≡ true
    → set_readahead e r ≡ record { end = e; ahead = none; ra = record r { started_ra_range = 0 } }
unfolding set_readahead
set_readahead-off e r h = ground arith

prepare_read-off : (s e : ℕ) (r : ReadAhead) → r.size ≡ none → prepare_read s e r ≡ some (off s e r)
unfolding prepare_read page_cache_readahead
prepare_read-off s e r h =
    rw
      (
        readahead_at-off r.size r.flag_incache s (e - s) r h,
        set_readahead-off e (record r { started_ra_range = 0 }) (ap is_none h),
      )
      refl

update_flag_incache-size :
    (length : ℕ) (hit : Bool) (r : ReadAhead) → (update_flag_incache length hit r).size ≡ r.size
unfolding update_flag_incache
update_flag_incache-size length hit r = ground arith

-- Read-ahead that a random access has disabled stays disabled: whatever follows, no page is read
-- ahead.
pub run_disabled :
    (es : List Event) (r : ReadAhead)
    → r.size ≡ none
    → (r' : ReadAhead) × (run es r ≡ some ([], r')) × (r'.size ≡ none)
unfolding run
run_disabled [] r h = (r, refl, h)
run_disabled (asks s e ∷ es) r h =
    let (r', g, v) = run_disabled es (off s e r).ra h in
    (r', rw (prepare_read-off s e r h, g) refl, v)
run_disabled (accesses length hit ∷ es) r h =
    run_disabled es (update_flag_incache length hit r)
      (rw (update_flag_incache-size length hit r) h)
