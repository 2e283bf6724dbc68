-- ===== src/Scheduler/Ssfq.antt =====
-- omnetpp/scheduler/SFQ/SSFQ.cc: a request that is too large goes to the queue in sub-requests, and
-- comes back when the last of them does. The class extends SFQ; here the queue below is any.
pub mod Split
pub mod Join
pub mod Push
mod Tests
use pfssim.Base.{
  ℕ, zero, suc, ◌+◌, ◌-◌, ◌*◌, ◌/◌, ◌%◌, Bool, true, false, Option, none, some, List, [], ◌∷◌, ◌++◌,
  ◌==◌, ltb, leb, if◌then◌else◌, find_by, remove_by,
}
use pfssim.Packet.{Kind, GPacket}
use pfssim.Scheduler.IQueue.{IQueue}
use pfssim.Client.Ids.{rid_offset}
use pfssim.Trace.{lowoffset_range}

abbrev pub max_subreq_size : ℕ
max_subreq_size = 131072

-- `std::map` as a list with its keys: `insert` keeps an entry that is there.
abbrev pub has_key : {V : Type 0} → ℕ → ℕ × V → Bool
has_key id e = e.0 == id

abbrev pub unless_there : {V : Type 0} → Option (ℕ × V) → ℕ → V → List (ℕ × V) → List (ℕ × V)
unless_there none id v m = (id, v) ∷ m
unless_there (some e) id v m = m

pub insert : {V : Type 0} → ℕ → V → List (ℕ × V) → List (ℕ × V)
insert id v m = unless_there (find_by (has_key id) m) id v m

-- The number of sub-requests, the last one with what remains.
abbrev pub num_of : ℕ → ℕ
num_of size =
    let num = size / max_subreq_size in if size % max_subreq_size == 0 then num else num + 1

abbrev pub subreq : GPacket → ℕ → ℕ → ℕ → GPacket
subreq p i size offset = record {
  kind = p.kind;
  id = p.id * rid_offset + i;
  sub_id = p.sub_id;
  app = p.app;
  size = size;
  client_id = p.client_id;
  file_id = p.file_id;
  high_offset = offset / lowoffset_range;
  low_offset = offset % lowoffset_range;
  read = p.read;
  ds_id = p.ds_id;
  aggregate_size = 0;
  total_subreqs = 1;
  sub_req_num = 0;
  o_direct = false;
}

prepend : GPacket → Option (List GPacket) → Option (List GPacket)
prepend p none = none
prepend p (some ps) = some (p ∷ ps)

-- The loop, on fuel; the sub-requests are those that it pushes.
unfoldable pub split : ℕ → GPacket → ℕ → ℕ → ℕ → Option (List GPacket)
unfolding prepend
split zero p i size offset = none
split (suc fuel) p i size offset =
    let rest = split fuel p (i + 1) (size - max_subreq_size) (offset + max_subreq_size) in
    if size == 0
    then some []
    else if ltb max_subreq_size size
    then prepend (subreq p i max_subreq_size offset) rest
    else some (subreq p i size offset ∷ [])

abbrev pub offset_of : GPacket → ℕ
offset_of p = p.low_offset + p.high_offset * lowoffset_range

-- The fuel is shown to be enough.
unfoldable pub subreqs : GPacket → Option (List GPacket)
subreqs p = split (suc p.size) p 0 p.size (offset_of p)

module _ (q : IQueue GPacket) where
  -- A count below 0 stands for a request that is its own sub-request; it is `none`.
  pub record Ssfq : Type 0 where
    pub base : q.State
    pub sub_req_num : List (ℕ × Option ℕ)
    pub req_list : List (ℕ × GPacket)

  abbrev pub push_all : List GPacket → q.State → q.State
  push_all [] s = s
  push_all (p ∷ ps) s = push_all ps (q.push_wait_q p s)

  -- A large request: its sub-requests go to the queue.
  push_large : GPacket → Option (List GPacket) → Ssfq → Option Ssfq
  unfolding insert
  push_large p none s = none
  push_large p (some ps) s = some (record {
    base = push_all ps s.base;
    sub_req_num = insert p.id (some (num_of p.size)) s.sub_req_num;
    req_list = insert p.id p s.req_list;
  })

  -- A small request goes to the queue itself; it is shared with the list, and so is its new ID.
  push_small : GPacket → Ssfq → Ssfq
  unfolding insert
  push_small p s =
      let p' = record p { id = p.id * rid_offset } in
      record {
        base = q.push_wait_q p' s.base;
        sub_req_num = insert p.id none s.sub_req_num;
        req_list = insert p.id p' s.req_list;
      }

  unfoldable pub push_wait_q : GPacket → Ssfq → Option Ssfq
  unfolding push_large push_small
  push_wait_q p s =
      if ltb max_subreq_size p.size then push_large p (subreqs p) s else some (push_small p s)

  -- The packet to give back, if any, and the queue after it; `none` means that an error ended the
  -- program, or that the request is not in the list. The list is read after its entry was erased;
  -- what it held then is taken.
  abbrev pub Popped : Type 0
  Popped = Option (Option GPacket × Ssfq)

  give_back : (GPacket → GPacket) → ℕ → Option (ℕ × GPacket) → Ssfq → Popped
  give_back f id none s = none
  give_back f id (some e) s =
      some (some (f e.1), record s { req_list = remove_by (has_key id) s.req_list })

  abbrev pub own_id : GPacket → GPacket
  own_id p = record p { id = p.id / rid_offset }

  -- The count has been erased from the map.
  counted : ℕ → Option ℕ → Ssfq → Popped
  unfolding give_back insert
  counted id none s = give_back own_id id (find_by (has_key id) s.req_list) s
  counted id (some n) s =
      if n == 1
      then give_back (λ p. p) id (find_by (has_key id) s.req_list) s
      else some (none, record s { sub_req_num = insert id (some (n - 1)) s.sub_req_num })

  with_count : ℕ → Option (ℕ × Option ℕ) → Ssfq → Popped
  unfolding counted
  with_count id none s = none
  with_count id (some e) s =
      counted id e.1 (record s { sub_req_num = remove_by (has_key id) s.sub_req_num })

  popped : ℕ → Option GPacket × q.State → Ssfq → Popped
  unfolding with_count
  popped id (none, b) s = some (none, record s { base = b })
  popped id (some p, b) s =
      with_count (id / rid_offset) (find_by (has_key (id / rid_offset)) s.sub_req_num)
        (record s { base = b })

  unfoldable pub pop_os_q : ℕ → Ssfq → Popped
  unfolding popped
  pop_os_q id s = popped id (q.pop_os_q id s.base) s
