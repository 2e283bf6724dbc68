-- ===== src/Vfs.antt =====
-- omnetpp/dserver/vfs/VFS.cc: a request for bytes of a file becomes requests for its pages. A write
-- that does not fill its first or last page reads those pages first.
pub mod Pages
pub mod Requests
mod Tests
use pfssim.Base.{
  ℕ, zero, suc, ◌+◌, ◌-◌, ◌*◌, ◌/◌, ◌%◌, Bool, true, false, not, ◌&&◌, Option, none, some, List, [],
  ◌∷◌, ◌++◌, ◌==◌, if◌then◌else◌, Arith, length,
}
use pfssim.Packet.{Kind, GPacket, BPacket, g_packet, lfile_resp}
use pfssim.Scheduler.Fifo.{
  Fifo, push_wait_q, dispatch_next, pop_os_q, pop_os_q_sub, query_job, has_id,
}
use pfssim.Lfs.Ext3.{PageRequest}
use pfssim.Trace.{lowoffset_range}

abbrev pub page_packet : BPacket PageRequest
page_packet = record { id = λ p. p.id; sub_id = λ p. p.sub_id; app = λ p. 0; size = λ p. 0 }

abbrev pub vfs_sub_id_base : ℕ
vfs_sub_id_base = 10

pub record Vfs : Type 0 where
  pub page_size : ℕ
  pub file_req_q : Fifo GPacket
  pub page_req_q : Fifo PageRequest

pub data Effect : Type 0 where
  to_dsd : GPacket → Effect
  to_disk_cache : PageRequest → Effect
  to_lfs : PageRequest → Effect

-- What a handler does, and the state after it; `none` means that an error ended the program, that
-- NULL was read, or that a loop ran out of fuel.
abbrev pub Result : Type 0
Result = Option (List Effect × Vfs)

abbrev pub prefix_with : List Effect → Result → Result
prefix_with es none = none
prefix_with es (some (fs, v)) = some (es ++ fs, v)

-- The packets of a queue are shared: a change of one that is outstanding changes it there.
pub set_first : (GPacket → Bool) → GPacket → List GPacket → List GPacket
set_first t p [] = []
set_first t p (x ∷ xs) = if t x then p ∷ xs else x ∷ set_first t p xs

-- The packet that was dispatched last stands at the end.
pub set_last : GPacket → List GPacket → List GPacket
set_last p [] = []
set_last p (x ∷ []) = p ∷ []
set_last p (x ∷ y ∷ xs) = x ∷ set_last p (y ∷ xs)

page_request : GPacket → ℕ → ℕ → ℕ → Bool → PageRequest
page_request f sub_id start end read = record {
  id = f.id;
  sub_id = sub_id;
  file_id = f.file_id;
  page_start = start;
  page_end = end;
  read = read;
  o_direct = f.o_direct;
}

pub page_effect : PageRequest → Effect
page_effect p = if p.o_direct then to_lfs p else to_disk_cache p

paged : Vfs → Option PageRequest × Fifo PageRequest → (Vfs → Result) → Result
unfolding page_effect
paged v (none, s) rest = some ([], record v { page_req_q = s })
paged v (some p, s) rest = prefix_with (page_effect p ∷ []) (rest (record v { page_req_q = s }))

-- The loop of `dispatchPageReqs`, on fuel.
unfoldable pub dispatch_all : ℕ → Vfs → Result
unfolding paged
dispatch_all zero v = none
dispatch_all (suc fuel) v = paged v (dispatch_next v.page_req_q) (dispatch_all fuel)

-- The arithmetic on `double`, its conversion to `long`, and 0.0000001.
module _ (F : Arith) (trunc : F.Double → ℕ) (tolerance : F.Double) where
  abbrev pub dstart : ℕ → GPacket → F.Double
  dstart page_size f =
      F.add (F.mul (F.div (F.of_nat lowoffset_range) (F.of_nat page_size)) (F.of_nat f.high_offset))
        (F.div (F.of_nat f.low_offset) (F.of_nat page_size))

  abbrev pub dend : ℕ → GPacket → F.Double
  dend page_size f = F.add (dstart page_size f) (F.div (F.of_nat f.size) (F.of_nat page_size))

  -- The part of a page after a whole number of pages.
  abbrev pub has_skew : F.Double → Bool
  has_skew d = F.lt tolerance (F.sub d (F.of_nat (trunc d)))

  -- The reads that a write needs first, and the end of its pages.
  front_read : ℕ → GPacket → List PageRequest
  unfolding page_request
  front_read page_size f =
      let start = trunc (dstart page_size f) in
      if not f.read && has_skew (dstart page_size f)
      then page_request f (1 * vfs_sub_id_base) start (start + 1) true ∷ []
      else []

  abbrev pub page_end_of : ℕ → GPacket → ℕ
  page_end_of page_size f =
      let end = trunc (dend page_size f) in if has_skew (dend page_size f) then end + 1 else end

  back_read : ℕ → GPacket → List PageRequest
  unfolding page_request
  back_read page_size f =
      let end = page_end_of page_size f in
      if has_skew (dend page_size f) && not f.read
      then page_request f (2 * vfs_sub_id_base) (end - 1) end true ∷ []
      else []

  -- The request itself, if nothing is to be read first.
  whole : ℕ → GPacket → List PageRequest → List PageRequest
  unfolding page_request
  whole page_size f [] =
      page_request f 0 (trunc (dstart page_size f)) (page_end_of page_size f) f.read ∷ []
  whole page_size f (r ∷ rs) = r ∷ rs

  -- What goes to the queue of pages for a file request.
  abbrev pub reads_first : ℕ → GPacket → List PageRequest
  unfolding front_read back_read
  reads_first page_size f = front_read page_size f ++ back_read page_size f

  unfoldable pub page_requests : ℕ → GPacket → List PageRequest
  unfolding whole front_read back_read
  page_requests page_size f = whole page_size f (reads_first page_size f)

  abbrev pub push_all : List PageRequest → Fifo PageRequest → Fifo PageRequest
  push_all [] q = q
  push_all (p ∷ ps) q = push_all ps (push_wait_q p q)

  filed : Vfs → Option GPacket × Fifo GPacket → Vfs
  filed v (none, s) = record v { file_req_q = s }
  filed v (some f, s) = record v {
    file_req_q = record s {
      os_q = set_last (record f { sub_req_num = length (reads_first v.page_size f) }) s.os_q;
    };
    page_req_q = push_all (page_requests v.page_size f) v.page_req_q;
  }

  unfoldable pub dispatch_next_file_req : Vfs → Vfs
  unfolding filed
  dispatch_next_file_req v = filed v (dispatch_next v.file_req_q)

  -- The fuel is shown to be enough.
  unfoldable pub dispatch_page_reqs : Vfs → Result
  dispatch_page_reqs v =
      let v' = dispatch_next_file_req v in dispatch_all (suc (length v'.page_req_q.wait_q)) v'

  -- `handleMessage` of a request: its size is above 0.
  unfoldable pub handle_new_file_req : GPacket → Vfs → Result
  handle_new_file_req f v =
      if f.size == 0
      then none
      else dispatch_page_reqs (record v { file_req_q = push_wait_q f v.file_req_q })

  -- The write that was held back.
  unfoldable pub reissued : ℕ → GPacket → PageRequest
  unfolding page_request
  reissued page_size f =
      page_request f f.sub_id (trunc (dstart page_size f)) (trunc (dend page_size f)) f.read

  -- The requests for pages after a read for a write has come back.
  abbrev pub after_read : ℕ → GPacket → List PageRequest
  after_read page_size f = if f.sub_req_num == 1 then reissued page_size f ∷ [] else []

  -- A count that would fall below 0 is not represented.
  read_back : Option GPacket → Vfs → Result
  read_back none v = none
  read_back (some f) v =
      if f.sub_req_num == 0
      then none
      else dispatch_page_reqs (record v {
        file_req_q = record v.file_req_q {
          os_q =
              set_first (has_id g_packet f.id) (record f { sub_req_num = f.sub_req_num - 1 })
                v.file_req_q.os_q;
        };
        page_req_q = push_all (after_read v.page_size f) v.page_req_q;
      })

  file_done : Option GPacket × Fifo GPacket → Vfs → Result
  file_done (none, s) v = none
  file_done (some f, s) v =
      prefix_with (to_dsd (record f { kind = lfile_resp }) ∷ [])
        (dispatch_page_reqs (record v { file_req_q = s }))

  -- A read for a write has a digit of the sub-ID that is not 0.
  abbrev pub is_for_write : PageRequest → Bool
  is_for_write p = not ((p.sub_id / vfs_sub_id_base % 10) == 0)

  page_done : Option PageRequest × Fifo PageRequest → PageRequest → Vfs → Result
  unfolding read_back file_done
  page_done (none, s) p v = none
  page_done (some a, s) p v =
      if is_for_write p
      then read_back (query_job g_packet p.id v.file_req_q) (record v { page_req_q = s })
      else file_done (pop_os_q g_packet p.id v.file_req_q) (record v { page_req_q = s })

  unfoldable pub handle_page_resp : PageRequest → Vfs → Result
  unfolding page_done
  handle_page_resp p v =
      page_done
        (pop_os_q_sub page_packet p.id (p.sub_id / vfs_sub_id_base * vfs_sub_id_base) v.page_req_q)
        p v
