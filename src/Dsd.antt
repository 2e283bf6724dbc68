-- ===== src/Dsd.antt =====
-- omnetpp/dserver/dsd: the daemon of a data server. PVFS2DSD.cc divides a read into sub-requests of
-- limited size, one after the other; the handlers of DSD_M.cc are in Handlers.
pub mod Serve
pub mod Reply
pub mod Handlers
mod Tests
use pfssim.Base.{
  ℕ, ◌+◌, ◌-◌, ◌*◌, ◌/◌, ◌%◌, pos, Bool, true, false, not, Option, none, some, List, [], ◌∷◌, ◌==◌,
  ltb, leb, if◌then◌else◌, find_by, remove_by,
}
use pfssim.Packet.{
  Kind, GPacket, g_packet, lfile_req, self_pfs_w_data_last, pfs_w_fin, pfs_r_data, pfs_r_data_last,
}
use pfssim.Scheduler.Fifo.{Fifo, init, push_wait_q, dispatch_next, pop_os_q, query_job}
use pfssim.Client.Ids.{rid_offset}

abbrev pub subreq_offset : ℕ
subreq_offset = 1

-- `info_t`. `decision` is the number of the server for a read and says for a write that it is the
-- last of its request, as `last`.
pub record Info : Type 0 where
  pub small_req : Bool
  pub size : ℕ
  pub loff : ℕ
  pub hoff : ℕ
  pub lub : ℕ
  pub fid : ℕ
  pub sub_id : ℕ
  pub app : ℕ
  pub read : Bool
  pub decision : ℕ
  pub last : Bool
  pub cid : ℕ

-- `infoMap` is a list with its keys. A queue holds a packet as it was when it was pushed: of one that
-- is changed afterwards only the ID is read there.
pub record Dsd : Type 0 where
  pub subreq_size : ℕ
  pub info_map : List (ℕ × Info)
  pub req_q : Fifo GPacket
  pub subreq_q : Fifo GPacket

abbrev pub has_key : ℕ → ℕ × Info → Bool
has_key id e = e.0 == id

-- `map::insert`, which keeps an entry that is there.
abbrev pub insert_info : ℕ → Info → List (ℕ × Info) → Option (ℕ × Info) → List (ℕ × Info)
insert_info id i m none = (id, i) ∷ m
insert_info id i m (some e) = m

abbrev pub read_info : ℕ → GPacket → Info
read_info subreq_size p = record {
  small_req = ltb p.size subreq_size;
  size = p.size;
  loff = p.low_offset;
  hoff = p.high_offset;
  lub = p.low_offset + p.size;
  fid = p.file_id;
  sub_id = p.sub_id;
  app = p.app;
  read = p.read;
  decision = p.ds_id;
  last = false;
  cid = p.client_id;
}

abbrev pub is_last_data : Kind → Bool
is_last_data self_pfs_w_data_last = true
is_last_data _ = false

-- `new info_t()` sets the other fields to 0.
abbrev pub write_info : GPacket → Info
write_info p = record {
  small_req = false;
  size = 0;
  loff = 0;
  hoff = 0;
  lub = 0;
  fid = 0;
  sub_id = 0;
  app = 0;
  read = false;
  decision = 0;
  last = is_last_data p.kind;
  cid = 0;
}

-- A sub-request that is not the last of its request.
abbrev pub new_subreq : ℕ → ℕ → ℕ → Info → GPacket
new_subreq subreq_size id loff i = record {
  kind = lfile_req;
  id = id;
  sub_id = i.sub_id;
  app = i.app;
  size = subreq_size;
  client_id = i.cid;
  file_id = i.fid;
  high_offset = i.hoff;
  low_offset = loff;
  read = i.read;
  ds_id = i.decision;
  aggregate_size = 0;
  total_subreqs = 1;
  sub_req_num = 0;
  o_direct = false;
}

-- The original request, as the last sub-request.
abbrev pub last_subreq : GPacket → ℕ → ℕ → GPacket
last_subreq p loff size = record p { kind = lfile_req; low_offset = loff; size = size }

abbrev pub first_subreq : ℕ → GPacket → Info → GPacket
first_subreq subreq_size p i =
    if leb (i.lub - i.loff) subreq_size
    then last_subreq p i.loff i.size
    else new_subreq subreq_size (p.id + subreq_offset) i.loff i

abbrev pub request_of : Dsd → GPacket → Info → GPacket → Dsd
request_of d p i sub = record d {
  info_map = insert_info p.id i d.info_map (find_by (has_key p.id) d.info_map);
  req_q = (dispatch_next (push_wait_q p d.req_q)).1;
  subreq_q = push_wait_q sub d.subreq_q;
}

unfoldable pub new_req : GPacket → Dsd → Dsd
new_req p d =
    if p.read
    then request_of d p (read_info d.subreq_size p)
        (first_subreq d.subreq_size p (read_info d.subreq_size p))
    else request_of d p (write_info p) p

unfoldable pub next_packet : Dsd → Option GPacket × Dsd
next_packet d = let (o, q) = dispatch_next d.subreq_q in (o, record d { subreq_q = q })

abbrev pub orig_id : GPacket → ℕ
orig_id fin = if fin.read then fin.id / rid_offset * rid_offset else fin.id

-- The packet to answer with, if any, and the daemon after it; `none` means that an error ended the
-- program.
abbrev pub Finished : Type 0
Finished = Option (Option GPacket × Dsd)

-- The original request leaves the queue and the map.
close : ℕ → Option GPacket → Dsd → Option GPacket × Fifo GPacket → Finished
close id answer d (none, q) = none
close id answer d (some p, q) =
    some (answer, record d { req_q = q; info_map = remove_by (has_key id) d.info_map })

write_done : Info → GPacket → Dsd → Finished
unfolding close
write_done i fin d =
    close (orig_id fin) (if i.last then some (record fin { kind = pfs_w_fin }) else none) d
      (pop_os_q g_packet (orig_id fin) d.req_q)

unfoldable pub next_id : GPacket → ℕ
next_id fin =
    if (fin.id + subreq_offset) % rid_offset == 0
    then orig_id fin + subreq_offset
    else fin.id + subreq_offset

last_of : ℕ → ℕ → Option GPacket → Option GPacket
last_of loff size none = none
last_of loff size (some p) = some (last_subreq p loff size)

-- The sub-request after one that ends at `loff`.
next_subreq : Info → GPacket → ℕ → Dsd → Option GPacket
unfolding last_of next_id
next_subreq i fin loff d =
    if leb i.lub (loff + d.subreq_size)
    then last_of loff (i.lub - loff) (query_job g_packet (orig_id fin) d.req_q)
    else some (new_subreq d.subreq_size (next_id fin) loff i)

go_on : GPacket → Dsd → Option GPacket → Finished
go_on fin d none = none
go_on fin d (some sub) = some (some fin, record d { subreq_q = push_wait_q sub d.subreq_q })

read_done : Info → GPacket → Dsd → Finished
unfolding close next_subreq go_on
read_done i fin d =
    if leb i.lub (fin.low_offset + fin.size)
    then close (orig_id fin) (some (record fin { kind = pfs_r_data_last })) d
        (pop_os_q g_packet (orig_id fin) d.req_q)
    else go_on (record fin { kind = pfs_r_data }) d
        (next_subreq i fin (fin.low_offset + fin.size) d)

with_info : Option (ℕ × Info) → GPacket → Dsd → Finished
unfolding write_done read_done
with_info none fin d = none
with_info (some (id, i)) fin d = if fin.read then read_done i fin d else write_done i fin d

popped : Option GPacket × Fifo GPacket → GPacket → Dsd → Finished
unfolding with_info
popped (none, q) fin d = none
popped (some p, q) fin d =
    with_info (find_by (has_key (orig_id fin)) d.info_map) fin (record d { subreq_q = q })

unfoldable pub finished_req : GPacket → Dsd → Finished
unfolding popped
finished_req fin d = popped (pop_os_q g_packet fin.id d.subreq_q) fin d
