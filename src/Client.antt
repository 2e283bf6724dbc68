-- ===== src/Client.antt =====
-- omnetpp/client/pfsclient/strategy/PVFS2ClientStrategy.cc: the client of PVFS2. A trace has its own
-- copy of the layout of its file: the source shares it, but sets it again in every trace of the file
-- when the layout changes.
pub mod Split
pub mod Ids
pub mod Cells
pub mod Send
pub mod Bytes
pub mod Module
pub mod Tests
use pfssim.Base.{
  ℕ, zero, suc, ◌+◌, Bool, true, false, Option, none, some, List, [], ◌∷◌, ◌++◌, map, ◌==◌,
  if◌then◌else◌, find_by, remove_by, pos,
}
use pfssim.Packet.{
  BPacket, GPacket, pfs_w_resp, pfs_w_fin, pfs_r_data, pfs_r_data_last, pfs_r_req, pfs_w_req,
}
use pfssim.Layout.{Layout, QPacket}
use pfssim.Trace.Offset as O
use pfssim.Trace.{
  Trace, AppRequest, Status, all_done, more_to_send, need_wait, invalid, next_g_packet,
  finished_g_packet, initialize,
}
use pfssim.Files.{
  PfsFile, new_file, has_file_id, find_pfs_file, add_pfs_file, information_is_set,
  set_from_metadata_packet, create_metadata_packet,
}
use pfssim.Scheduler.Fifo as Q
use pfssim.Scheduler.Fifo.{Fifo}
use pfssim.Client.Ids.{next_request_id, first_request_id}
use pfssim.Client.Split.{process_data_packet_response}

-- What a handler puts into its list. A handler returns `none` for an error, which ends the program, and
-- for the use of a pointer that is NULL.
pub data Out : Type 0 where
  layout_query : QPacket → Out
  data_packet : GPacket → Out
  trace_response : AppRequest → Out

pub record Client : Type 0 where
  pub my_id : ℕ
  pub traces : List Trace
  pub pfs_files : List PfsFile
  pub app_request_q : Fifo AppRequest
  pub request_id : ℕ
  pub packet_size_limit : ℕ

-- `AppRequest` as a packet; its sub-ID is not set.
abbrev pub app_packet : BPacket AppRequest
app_packet = record { id = λ r. r.id; sub_id = λ r. 0; app = λ r. r.app; size = λ r. r.total_size }

pub init : ℕ → Client
init id = record {
  my_id = id;
  traces = [];
  pfs_files = [];
  app_request_q = Q.init (pos 100);
  request_id = first_request_id id;
  packet_size_limit = 10000000;
}

pub set_packet_length_limit : ℕ → Client → Client
set_packet_length_limit limit c = record c { packet_size_limit = limit }

-- A packet of a trace, as a request of the client.
abbrev pub stamp : ℕ → ℕ → GPacket → GPacket
stamp my_id id p = record p {
  id = id;
  client_id = my_id;
  kind = if p.read then pfs_r_req else pfs_w_req;
}

pub collect :
    ℕ
    → ℕ
    → Option GPacket
    → Trace
    → Option (List GPacket × ℕ × Trace)
    → Option (List GPacket × ℕ × Trace)
collect my_id id none t rest = some ([], id, t)
collect my_id id (some p) t none = none
collect my_id id (some p) t (some (ps, id', t')) = some (stamp my_id id p ∷ ps, id', t')

-- `while(1)` of `generateDataPacketRequests` for one trace, on fuel; `none` means that the fuel ran
-- out.
unfoldable pub send_all : ℕ → ℕ → ℕ → Trace → Option (List GPacket × ℕ × Trace)
unfolding collect
send_all zero my_id id t = none
send_all (suc fuel) my_id id t =
    let (o, t') = next_g_packet t in
    let rest = send_all fuel my_id (next_request_id my_id id) t' in collect my_id id o t' rest

-- The fuel for a trace: one round for each server, and one that finds nothing. It is shown to be
-- enough.
abbrev pub rounds : Option Layout → ℕ
rounds none = 1
rounds (some l) = suc l.server_num

pub beside : Trace → Option (List GPacket × ℕ × List Trace) → Option (List GPacket × ℕ × List Trace)
beside t none = none
beside t (some (ps, id, ts)) = some (ps, id, t ∷ ts)

pub in_front :
    List Trace → Option (List GPacket × ℕ × Trace) → Option (List GPacket × ℕ × List Trace)
in_front ts none = none
in_front ts (some (ps, id, t)) = some (ps, id, t ∷ ts)

-- The loop over the traces, which returns with the first trace of the file.
pub generate : ℕ → ℕ → ℕ → List Trace → Option (List GPacket × ℕ × List Trace)
unfolding beside in_front
generate fid my_id id [] = some ([], id, [])
generate fid my_id id (t ∷ ts) =
    let rest = generate fid my_id id ts in
    if t.pfs_file_id == fid
    then in_front ts (send_all (rounds t.layout) my_id id t)
    else beside t rest

generated : Client → Option (List GPacket × ℕ × List Trace) → Option (List Out × Client)
generated c none = none
generated c (some (ps, id, ts)) =
    some (map data_packet ps, record c { request_id = id; traces = ts })

pub generate_data_packet_requests : ℕ → Client → Option (List Out × Client)
unfolding generated
generate_data_packet_requests fid c = generated c (generate fid c.my_id c.request_id c.traces)

-- `handleNewTrace` after the search for the file.
start_trace : AppRequest → Trace → Option PfsFile → Client → Option (List Out × Client)
start_trace r t none c = some (
  layout_query (create_metadata_packet c.request_id c.my_id 0 (new_file r.file_id)) ∷ [],
  record c {
    traces = c.traces ++ t ∷ [];
    pfs_files = add_pfs_file (new_file r.file_id) c.pfs_files;
  },
)
start_trace r t (some f) c = elim f.layout [
  | none ↦ some ([], record c { traces = c.traces ++ t ∷ [] })
  | some l ↦
      generate_data_packet_requests r.file_id
        (record c { traces = c.traces ++ O.set_layout l t ∷ [] })
]

-- The new trace is given with what its members hold before they are set.
unfoldable pub handle_new_trace : Trace → AppRequest → Client → Option (List Out × Client)
unfolding start_trace
handle_new_trace blank r c =
    start_trace r (initialize r blank) (find_pfs_file r.file_id c.pfs_files)
      (record c { app_request_q = (Q.dispatch_next (Q.push_wait_q r c.app_request_q)).1 })

-- The layout of a file is set in each trace of the file.
abbrev pub set_layouts : ℕ → Layout → List Trace → List Trace
set_layouts fid l [] = []
set_layouts fid l (t ∷ ts) =
    (if t.pfs_file_id == fid then O.set_layout l t else t) ∷ set_layouts fid l ts

-- A file in place of the one with its ID.
pub put_file : PfsFile → List PfsFile → List PfsFile
put_file f [] = []
put_file f (g ∷ gs) = if g.id == f.id then f ∷ gs else g ∷ put_file f gs

file_or_new : Option PfsFile → ℕ → PfsFile
file_or_new none fid = new_file fid
file_or_new (some f) fid = f

-- The layout that the file has by then.
with_layout : ℕ → Option Layout → Client → Option (List Out × Client)
with_layout fid none c = none
with_layout fid (some l) c =
    generate_data_packet_requests fid (record c { traces = set_layouts fid l c.traces })

unfoldable pub handle_metadata_packet_response : QPacket → Client → Option (List Out × Client)
unfolding file_or_new with_layout put_file
handle_metadata_packet_response p c =
    let f =
      set_from_metadata_packet p (file_or_new (find_pfs_file p.file_id c.pfs_files) p.file_id) in
    with_layout p.file_id f.layout
      (record c { pfs_files = put_file f (add_pfs_file (new_file p.file_id) c.pfs_files) })

abbrev pub has_trace_id : ℕ → Trace → Bool
has_trace_id id t = t.id == id

-- A trace in place of the one with its ID.
pub put_trace : Trace → List Trace → List Trace
put_trace t [] = []
put_trace t (u ∷ us) = if u.id == t.id then t ∷ us else u ∷ put_trace t us

-- The end of a trace: its request leaves the queue and is returned.
respond : Option AppRequest → Client → Option (List Out × Client)
respond none c = none
respond (some r) c = some (trace_response r ∷ [], c)

-- What follows the answer of the trace with an ID.
after_status : ℕ → GPacket → Status → Client → Option (List Out × Client)
unfolding respond
after_status id p all_done c =
    let (o, q) = Q.pop_os_q app_packet id c.app_request_q in
    respond o (record c { traces = remove_by (has_trace_id id) c.traces; app_request_q = q })
after_status id p more_to_send c = generate_data_packet_requests p.file_id c
after_status id p need_wait c = some ([], c)
after_status id p invalid c = none

-- A request that is not found in the queue is an error, which ends the program.
with_request : Option AppRequest → GPacket → Status → Client → Option (List Out × Client)
unfolding after_status
with_request none p status c = none
with_request (some r) p status c = after_status p.sub_id p status c

finished : Option (Status × Trace) → GPacket → Client → Option (List Out × Client)
unfolding with_request put_trace
finished none p c = none
finished (some (status, t)) p c =
    with_request (Q.query_job app_packet p.sub_id c.app_request_q) p status
      (record c { traces = put_trace t c.traces })

-- `processLastDataPacketResponse` of the trace that was found; the time of the first answer, which it
-- also notes in the request, is left out.
last_response : Option Trace → GPacket → Client → Option (List Out × Client)
unfolding finished
last_response none p c = none
last_response (some t) p c = finished (finished_g_packet p t) p c

pub process_last_data_packet_response : GPacket → Client → Option (List Out × Client)
unfolding last_response
process_last_data_packet_response p c = last_response (find_by (has_trace_id p.sub_id) c.traces) p c

-- The packets of a transfer.
transferred : Client → Option (List GPacket) → Option (List Out × Client)
transferred c none = none
transferred c (some ps) = some (map data_packet ps, c)

-- The other kinds of packets leave the list empty.
unfoldable pub handle_data_packet_response : GPacket → Client → Option (List Out × Client)
unfolding transferred
handle_data_packet_response p c = elim p.kind [
  | pfs_w_resp ↦ transferred c (process_data_packet_response c.packet_size_limit p)
  | pfs_r_data_last ↦ process_last_data_packet_response p c
  | pfs_w_fin ↦ process_last_data_packet_response p c
  | _ ↦ some ([], c)
]
