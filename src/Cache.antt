-- ===== src/Cache.antt =====
-- omnetpp/dserver/diskcache/DiskCache.cc: the page table of a file, an ordered list of page ranges
-- with their flags, and the walk that updates it before and after an access. The pointers of the LRU
-- list are left out, and so is the reclaiming of pages, which a walk that is short of free pages
-- would call.
pub mod Ranges
pub mod ReadAhead
pub mod Trim
pub mod Reads
pub mod Writeout
mod Tests
use pfssim.Base.{
  ℕ, ◌+◌, ◌-◌, Bool, true, false, not, ◌&&◌, ◌||◌, List, [], ◌∷◌, ◌++◌, ltb, leb, ◌==◌,
  if◌then◌else◌,
}

-- The flags of `pr_t`. `PG_lru` is never set and left out.
pub record Flags : Type 0 where
  pub count : ℕ
  pub dirty : Bool
  pub writeback : Bool
  pub locked : Bool
  pub referenced : Bool
  pub modified : Bool

-- The pages from `start` to before `end` of one file.
pub record PageRange : Type 0 where
  pub start : ℕ
  pub end : ℕ
  pub flags : Flags

-- The constructor of `pr_t`.
abbrev pub page_range : ℕ → ℕ → Bool → PageRange
page_range s e dirty = record {
  start = s;
  end = e;
  flags = record {
    count = 1;
    dirty = dirty;
    writeback = false;
    locked = dirty;
    referenced = true;
    modified = dirty;
  };
}

-- What a walk is called for: `preop` before the access or after it, `disk` or cache, `read` or write.
pub record Access : Type 0 where
  pub preop : Bool
  pub disk : Bool
  pub read : Bool

-- A walk ends, refuses the access with an error, or is short of free pages: the source then links the new node, calls
-- `lru_free_pages`, which may delete nodes, and goes on, where the model stops before the node.
pub data Status : Type 0 where
  finished refused short : Status

-- `dirty_pages` is `dirtied` less `cleaned`: what is added to it and what is taken from it.
pub record Counts : Type 0 where
  pub free_pages : ℕ
  pub dirtied : ℕ
  pub cleaned : ℕ

-- What is left of the list from the node of a round on, the counts and how the walk went.
pub record Walked : Type 0 where
  pub pages : List PageRange
  pub counts : Counts
  pub status : Status

-- One round: the walk stops, or the nodes of the round are done and the request is what is left of
-- it.
pub data Round : Type 0 where
  stop : Status → List PageRange → Counts → Round
  on : List PageRange → PageRange → Counts → Round

-- Only reading from the disk and writing to the cache, before they begin, add pages.
abbrev pub may_grow : Access → Bool
may_grow m = m.preop && (m.disk && m.read || not m.disk && not m.read)

-- The flags of pages that the walk adds, from the flags `f` of the request.
unfoldable pub fresh : Access → Flags → Flags
fresh m f = record f { count = 1; dirty = not m.read || f.dirty; locked = true }

-- The flags of cached pages with the flags `g` that are part of the request. The error of writing
-- back what is not dirty cannot occur: a request that writes has the flag.
unfoldable pub mark : Access → Flags → Flags → Flags
mark m f g = record f {
  count = if m.preop then 1 else 0;
  dirty =
      (if m.disk && not m.read
        then m.preop && (f.dirty || g.dirty)
        else not m.read && not m.disk || f.dirty || g.dirty);
  writeback = if m.disk && not m.read then m.preop else f.writeback;
  locked = (if m.disk then m.preop && f.locked else if m.read then f.locked else m.preop);
  modified = if m.disk && not m.read && not m.preop then f.modified else f.modified || g.modified;
}

-- Pages from the request's start to before `e` are added.
abbrev pub added : Access → PageRange → ℕ → PageRange
added m a e = record { start = a.start; end = e; flags = fresh m a.flags }

abbrev pub grown : Access → ℕ → Counts → Counts
grown m n k = record k {
  free_pages = k.free_pages - n;
  dirtied = if m.read then k.dirtied else k.dirtied + n;
}

abbrev pub written_back : Access → ℕ → Counts → Counts
written_back m n k =
    if m.preop && m.disk && not m.read then record k { cleaned = k.cleaned + n } else k

-- The pages of a node that lie before the request stay as they are.
abbrev pub kept_before : PageRange → PageRange → List PageRange → List PageRange
kept_before a c rest = if a.start == c.start then rest else record c { end = a.start } ∷ rest

-- The end of a round: nothing is left of the request, or it reads the cache and only counts one node.
pub pass : Access → List PageRange → PageRange → Counts → Round
pass m front a k =
    if a.start == a.end
    then stop finished front k
    else if m.preop && not m.disk && m.read
    then stop finished front k
    else on front a k

-- The start of the request lies in the node `c`. Reading from the disk what is cached is an error,
-- which ends the program.
pub hit : Access → PageRange → PageRange → Counts → Round
unfolding mark pass
hit m a c k =
    if m.preop && m.disk && m.read
    then stop refused (c ∷ []) k
    else let g = mark m a.flags c.flags in
      if ltb a.end c.end
      then stop finished
          (kept_before a c (record a { flags = g } ∷ record c { start = a.end } ∷ []))
          (written_back m (a.end - a.start) k)
      else pass m (kept_before a c (record a { end = c.end; flags = g } ∷ []))
          (record a { start = c.end }) (written_back m (c.end - a.start) k)

-- The request does not begin before the node `c`.
pub at_node : Access → PageRange → PageRange → Counts → Round
unfolding hit pass
at_node m a c k = if ltb a.start c.end then hit m a c k else pass m (c ∷ []) a k

pub before_node : PageRange → Round → Round
before_node n (stop s front k) = stop s (n ∷ front) k
before_node n (on front a k) = on (n ∷ front) a k

-- The start of the request lies before the node `c`.
pub gap : Access → PageRange → PageRange → Counts → Round
unfolding fresh at_node before_node
gap m a c k =
    if not (may_grow m)
    then stop refused (c ∷ []) k
    else if leb a.end c.start
    then (if ltb k.free_pages (a.end - a.start)
        then stop short (c ∷ []) k
        else stop finished (added m a a.end ∷ c ∷ []) (grown m (a.end - a.start) k))
    else if ltb k.free_pages (c.start - a.start)
    then stop short (c ∷ []) k
    else before_node (added m a c.start)
        (at_node m (record a { start = c.start }) c (grown m (c.start - a.start) k))

pub round : Access → PageRange → PageRange → Counts → Round
unfolding gap at_node
round m a c k = if ltb a.start c.start then gap m a c k else at_node m a c k

-- The walk goes on with the nodes `cs` that follow, or leaves them as they are.
pub after_round : List PageRange → (PageRange → Counts → Walked) → Round → Walked
after_round cs next (stop s front k) = record { pages = front ++ cs; counts = k; status = s }
after_round cs next (on front a k) = let w = next a k in record w { pages = front ++ w.pages }

-- `walkCache_update` from the node where it begins, which is the head of the list or `pr_last`. The source sets the
-- count of the request to 1 first, whatever it was: `fresh` and `mark` have that 1.
pub walk : Access → PageRange → List PageRange → Counts → Walked
unfolding fresh round after_round
walk m a [] k =
    if not (may_grow m)
    then record { pages = []; counts = k; status = refused }
    else if ltb k.free_pages (a.end - a.start)
    then record { pages = []; counts = k; status = short }
    else record {
      pages = added m a a.end ∷ [];
      counts = grown m (a.end - a.start) k;
      status = finished;
    }
walk m a (c ∷ cs) k = after_round cs (λ a' k'. walk m a' cs k') (round m a c k)

-- `walkCache_countMissing`: `s` moves over the gap before the node, then over the node.
pub over_gap : ℕ → PageRange → ℕ
over_gap s c = if ltb s c.start then c.start else s

pub over_node : ℕ → PageRange → ℕ
over_node s c = if ltb s c.end then c.end else s

pub count_missing : ℕ → ℕ → List PageRange → ℕ
unfolding over_gap over_node
count_missing s e [] = e - s
count_missing s e (c ∷ cs) =
    let s' = over_gap s c in
    let rest = count_missing (over_node s' c) e cs in
    if ltb s c.start && leb e c.start
    then e - s
    else (s' - s) + (if ltb s' c.end && ltb e c.end || over_node s' c == e then 0 else rest)
