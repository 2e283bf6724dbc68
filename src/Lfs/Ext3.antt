-- ===== src/Lfs/Ext3.antt =====
-- omnetpp/dserver/lfs/EXT3.cc: page requests of a data server become requests for disk blocks, one at
-- a time for each page request. An entry of the queue stands for a page request with its block range
-- (`br_t`), which the source keeps in a map whose keys are the requests of the queue.
pub mod Dispatch
use pfssim.Base.{
  ℕ, zero, suc, ◌+◌, ◌-◌, ◌*◌, ◌/◌, Bool, true, false, not, ◌&&◌, Option, none, some, List, [], ◌∷◌,
  ◌++◌, ltb, ◌==◌, if◌then◌else◌, update, ℤ, reaches, find_by, remove_by,
}
use pfssim.Lfs.Extents.{Extent, find_ext_entry}

pub record PageRequest : Type 0 where
  pub id : ℕ
  pub sub_id : ℕ
  pub file_id : ℕ
  pub page_start : ℕ
  pub page_end : ℕ
  pub read : Bool
  pub o_direct : Bool

pub record BlkRequest : Type 0 where
  pub id : ℕ
  pub sub_id : ℕ
  pub file_id : ℕ
  pub blk_start : ℕ
  pub blk_end : ℕ
  pub read : Bool

pub record Entry : Type 0 where
  pub req : PageRequest
  pub pending : Bool
  -- The blocks of the file that are still to be accessed, and the extent of the last access.
  pub start : ℕ
  pub end : ℕ
  pub extindex : ℕ
  pub extoff : ℕ

pub record Ext3 : Type 0 where
  pub degree : ℤ
  pub page_size : ℕ
  pub blk_size : ℕ
  pub page_req_q : List Entry
  pub outstanding : ℕ
  pub new_ext_size : ℕ
  pub new_ext_gap : ℕ
  pub extlist : ℕ → Option (ℕ → Extent)
  pub extentry_num : ℕ → ℕ

-- The first entry that passes the test is replaced.
unfoldable pub replace_first : (Entry → Bool) → Entry → List Entry → List Entry
replace_first p e [] = []
replace_first p e (x ∷ xs) = if p x then e ∷ xs else x ∷ replace_first p e xs

-- A cell that was never written; its start is -1 in the source.
blank : Extent
blank = record { logistart = 0; phystart = 0; length = 0; accessed = false }

known : Option (ℕ → Extent) → Option (ℕ → Extent)
unfolding blank
known none = some (λ i. blank)
known (some xs) = some xs

-- `extentryNum` of a new file keeps what it holds.
unfoldable pub new_req : PageRequest → Ext3 → Ext3
unfolding known
new_req r q = record q {
  page_req_q =
      q.page_req_q
      ++ record {
        req = r;
        pending = false;
        start = r.page_start * (q.page_size / q.blk_size);
        end = r.page_end * (q.page_size / q.blk_size);
        extindex = 0;
        extoff = 0;
      }
        ∷ [];
  extlist = update q.extlist r.file_id (known (q.extlist r.file_id));
}

abbrev pub is_idle : Entry → Bool
is_idle e = not e.pending

-- The physical start of a new extent.
new_phystart : (ℕ → Extent) → ℕ → ℕ → ℕ
new_phystart xs gap zero = gap
new_phystart xs gap (suc i) = (xs i).phystart + gap

-- The new extent at `index`, for a file that has so many.
unfoldable pub allocate : ℕ → ℕ → ℕ → ℕ → (ℕ → Extent) → ℕ → Extent
unfolding new_phystart
allocate size gap start index xs = update xs index (record {
  logistart = start;
  phystart = new_phystart xs gap index;
  length = size;
  accessed = false;
})

-- The blocks of the next access: the block before an extent that was not accessed, or the part of the
-- range that is in the extent; and whether it is an access of data.
unfoldable pub blocks : Extent → ℕ → ℕ → ℕ × ℕ × Bool
blocks x start end =
    let from = x.phystart + (start - x.logistart) in
    let to = (end - start) + from in
    let limit = x.phystart + x.length in
    if x.accessed
    then (from, (if ltb limit to then limit else to), true)
    else (x.phystart - 1, (x.phystart - 1) + 1, false)

unfoldable pub blk_request : PageRequest → ℕ × ℕ × Bool → BlkRequest
blk_request r (from, to, is_data) = record {
  id = r.id;
  sub_id = r.sub_id + (if is_data then 1 else 0);
  file_id = r.file_id;
  blk_start = from;
  blk_end = to;
  read = r.read;
}

-- The extents with the extent at `index`, which is allocated if there is none.
unfoldable pub with_extent : Ext3 → ℕ → ℕ → ℕ → (ℕ → Extent) → Ext3
unfolding allocate
with_extent q fid start index xs =
    if index == q.extentry_num fid
    then record q {
      extlist = update q.extlist fid (some (allocate q.new_ext_size q.new_ext_gap start index xs));
      extentry_num = update q.extentry_num fid (q.extentry_num fid + 1);
    }
    else q

unfoldable pub extents_of : Option (ℕ → Extent) → ℕ → Extent
unfolding blank
extents_of none i = blank
extents_of (some xs) i = xs i

-- What follows `findExtEntry`: the state has the request counted and marked as pending.
unfoldable pub access : Entry → Option ℕ → Ext3 → Option BlkRequest × Ext3
unfolding with_extent extents_of blk_request blocks
access e none q = (
  none,
  record q { page_req_q = replace_first is_idle (record e { pending = true }) q.page_req_q },
)
access e (some index) q =
    let fid = e.req.file_id in
    let q' = with_extent q fid e.start index (extents_of (q.extlist fid)) in
    let x = extents_of (q'.extlist fid) index in
    (
      some (blk_request e.req (blocks x e.start e.end)),
      record q' {
        page_req_q =
            replace_first is_idle
              (record e { pending = true; extindex = index; extoff = e.start - x.logistart })
              q.page_req_q;
      },
    )

unfoldable pub serve_idle : Option Entry → Ext3 → Option BlkRequest × Ext3
serve_idle none q = (none, q)
serve_idle (some e) q =
    access e (find_ext_entry (q.extlist e.req.file_id) (q.extentry_num e.req.file_id) e.start)
      (record q { outstanding = q.outstanding + 1 })

unfoldable pub dispatch_next : Ext3 → Option BlkRequest × Ext3
unfolding serve_idle
dispatch_next q =
    if reaches q.outstanding q.degree
    then (none, q)
    else serve_idle (find_by is_idle q.page_req_q) q

-- The request that an answer is for; the last digit of its sub-ID is of this layer.
abbrev pub answers : BlkRequest → Entry → Bool
answers b e = (e.req.id == b.id) && (e.req.sub_id == b.sub_id / 10 * 10)

-- An answer to the access before the extent: the extent is marked as accessed.
mark_accessed : ℕ → ℕ → Option (ℕ → Extent) → Option (ℕ → Extent)
mark_accessed fid i none = none
mark_accessed fid i (some xs) = some (update xs i (record (xs i) { accessed = true }))

unfoldable pub finish : BlkRequest → Option Entry → Ext3 → Option PageRequest × Ext3
unfolding mark_accessed extents_of
finish b none q = (none, q)
finish b (some e) q =
    let fid = b.file_id in
    let x = extents_of (q.extlist fid) e.extindex in
    let idle = record e { pending = false } in
    let q' = record q {
      outstanding = q.outstanding - 1;
      page_req_q = replace_first (answers b) idle q.page_req_q;
    } in
    let start' = e.start + (b.blk_end - b.blk_start) in
    if (x.phystart == b.blk_start + 1) && (b.blk_end == b.blk_start + 1)
    then (
      none,
      record q' { extlist = update q.extlist fid (mark_accessed fid e.extindex (q.extlist fid)) },
    )
    else if b.blk_start == x.phystart + e.extoff
    then if start' == e.end
      then (some e.req, record q' { page_req_q = remove_by (answers b) q.page_req_q })
      else (
        none,
        record q' {
          page_req_q = replace_first (answers b) (record idle { start = start' }) q.page_req_q;
        },
      )
    else (none, q')

unfoldable pub finished_req : BlkRequest → Ext3 → Option PageRequest × Ext3
unfolding finish
finished_req b q = finish b (find_by (answers b) q.page_req_q) q
