-- ===== src/Client/Module/Sends.antt =====
-- What the strategy of a client puts into its lists (omnetpp/client/pfsclient/strategy/PVFS2ClientStrategy.cc):
-- kinds of packets that the module sends.
use pfssim.Base.{
  ℕ, zero, suc, ◌+◌, ◌≡◌, refl, inl, inr, Bool, true, false, Option, none, some, List, [], ◌∷◌,
  ◌==◌, All, map, leb, ◌||◌, find_by, if◌then◌else◌, Bool-cases, Option-cases,
}
use pfssim.Packet.{GPacket, Kind, pfs_w_req, pfs_r_req, pfs_w_resp, pfs_w_fin, pfs_r_data_last}
use pfssim.Layout.{Layout, QPacket}
use pfssim.Files.{PfsFile}
use pfssim.Trace.{
  AppRequest, Trace, Status, all_done, more_to_send, need_wait, invalid, next_g_packet,
}
use pfssim.Client.{
  Client, Out, data_packet, handle_new_trace, handle_metadata_packet_response,
  handle_data_packet_response, stamp, collect, send_all, beside, in_front, generate, generated,
  generate_data_packet_requests, rounds, start_trace, with_layout, transferred, respond,
  after_status, with_request, finished, last_response, process_last_data_packet_response,
  has_trace_id,
}
use pfssim.Client.Split as Split
use pfssim.Client.Split.{split, piece, last_piece, process_data_packet_response}
use pfssim.Client.Ids.{next_request_id}
use pfssim.Client.Module.{is_request}
use pfssim.Client.Module.Times.{IsSent}

abbrev IsRequest : GPacket → Type 0
IsRequest p = is_request p.kind ≡ true

abbrev Requests : {A : Type 0} → Option (List GPacket × ℕ × A) → Type 0
Requests none = Unit
Requests (some (ps, i, a)) = All IsRequest ps

stamp-IsRequest :
    (b : Bool) (k : Kind) → k ≡ (if b then pfs_r_req else pfs_w_req) → is_request k ≡ true
stamp-IsRequest true k h = rw h refl
stamp-IsRequest false k h = rw h refl

collect-Requests :
    (my_id id : ℕ) (o : Option GPacket) (t : Trace) (rest : Option (List GPacket × ℕ × Trace))
    → Requests rest
    → Requests (collect my_id id o t rest)
unfolding collect
collect-Requests my_id id none t rest h = tt
collect-Requests my_id id (some p) t none h = tt
collect-Requests my_id id (some p) t (some (ps, i, t')) h =
    (stamp-IsRequest p.read (stamp my_id id p).kind refl, h)

send_all-Requests : (fuel my_id id : ℕ) (t : Trace) → Requests (send_all fuel my_id id t)
unfolding send_all
send_all-Requests zero my_id id t = tt
send_all-Requests (suc fuel) my_id id t =
    let (o, t') = next_g_packet t in
    collect-Requests my_id id o t' _ (send_all-Requests fuel my_id (next_request_id my_id id) t')

beside-Requests :
    (t : Trace) (o : Option (List GPacket × ℕ × List Trace)) → Requests o → Requests (beside t o)
unfolding beside
beside-Requests t none h = tt
beside-Requests t (some (ps, id, ts)) h = h

in_front-Requests :
    (ts : List Trace) (o : Option (List GPacket × ℕ × Trace))
    → Requests o
    → Requests (in_front ts o)
unfolding in_front
in_front-Requests ts none h = tt
in_front-Requests ts (some (ps, id, t)) h = h

generate-Requests : (fid my_id id : ℕ) (ts : List Trace) → Requests (generate fid my_id id ts)
unfolding generate
generate-Requests fid my_id id [] = tt
generate-Requests fid my_id id (t ∷ ts) = elim (Bool-cases (t.pfs_file_id == fid)) [
  | inl e ↦ rw e (in_front-Requests ts _ (send_all-Requests (rounds t.layout) my_id id t))
  | inr e ↦ rw e (beside-Requests t _ (generate-Requests fid my_id id ts))
]

-- What a handler of the strategy puts into its list has kinds that the module sends.
abbrev pub Sends : Option (List Out × Client) → Type 0
Sends none = Unit
Sends (some (os, x)) = All IsSent os

packets-IsSent : (ps : List GPacket) → All IsRequest ps → All IsSent (map data_packet ps)
packets-IsSent [] h = tt
packets-IsSent (p ∷ ps) h = (h.0, packets-IsSent ps h.1)

generated-Sends :
    (c : Client) (o : Option (List GPacket × ℕ × List Trace)) → Requests o → Sends (generated c o)
unfolding generated
generated-Sends c none h = tt
generated-Sends c (some (ps, id, ts)) h = packets-IsSent ps h

generate_data_packet_requests-Sends :
    (fid : ℕ) (c : Client) → Sends (generate_data_packet_requests fid c)
unfolding generate_data_packet_requests
generate_data_packet_requests-Sends fid c =
    generated-Sends c _ (generate-Requests fid c.my_id c.request_id c.traces)

with_file-Sends :
    (r : AppRequest) (t : Trace) (o : Option PfsFile) (c : Client) → Sends (start_trace r t o c)
unfolding start_trace
with_file-Sends r t none c = (tt, tt)
with_file-Sends r t (some f) c = elim (Option-cases f.layout) [
  | inl e ↦ rw e tt
  | inr (l, e) ↦ rw e (generate_data_packet_requests-Sends r.file_id _)
]

pub handle_new_trace-Sends :
    (blank : Trace) (r : AppRequest) (c : Client) → Sends (handle_new_trace blank r c)
unfolding handle_new_trace
handle_new_trace-Sends blank r c = with_file-Sends r _ _ _

with_layout-Sends : (fid : ℕ) (o : Option Layout) (c : Client) → Sends (with_layout fid o c)
unfolding with_layout
with_layout-Sends fid none c = tt
with_layout-Sends fid (some l) c = generate_data_packet_requests-Sends fid _

pub handle_metadata_packet_response-Sends :
    (q : QPacket) (c : Client) → Sends (handle_metadata_packet_response q c)
unfolding handle_metadata_packet_response
handle_metadata_packet_response-Sends q c = with_layout-Sends q.file_id _ _

abbrev AllRequests : Option (List GPacket) → Type 0
AllRequests none = Unit
AllRequests (some ps) = All IsRequest ps

prepend-AllRequests :
    (p : GPacket) (o : Option (List GPacket))
    → IsRequest p
    → AllRequests o
    → AllRequests (Split.prepend p o)
unfolding Split.prepend
prepend-AllRequests p none h g = tt
prepend-AllRequests p (some ps) h g = (h, g)

split-AllRequests :
    (limit ub : ℕ) (p : GPacket) (fuel id loff : ℕ) → AllRequests (split limit p ub fuel id loff)
unfolding split last_piece piece
split-AllRequests limit ub p zero id loff = tt
split-AllRequests limit ub p (suc fuel) id loff =
    elim (Bool-cases (leb ub (loff + limit) || p.read)) [
      | inl e ↦ rw e (refl, tt)
      | inr e ↦ rw e (
          prepend-AllRequests (piece limit p id loff) _ refl
            (split-AllRequests limit ub p fuel (id + 1) (loff + limit)))
    ]

transferred-Sends :
    (c : Client) (o : Option (List GPacket)) → AllRequests o → Sends (transferred c o)
unfolding transferred
transferred-Sends c none h = tt
transferred-Sends c (some ps) h = packets-IsSent ps h

respond-Sends : (o : Option AppRequest) (c : Client) → Sends (respond o c)
unfolding respond
respond-Sends none c = tt
respond-Sends (some r) c = (tt, tt)

after_status-Sends :
    (id : ℕ) (p : GPacket) (s : Status) (c : Client) → Sends (after_status id p s c)
unfolding after_status
after_status-Sends id p all_done c = respond-Sends _ _
after_status-Sends id p more_to_send c = generate_data_packet_requests-Sends p.file_id c
after_status-Sends id p need_wait c = tt
after_status-Sends id p invalid c = tt

with_request-Sends :
    (o : Option AppRequest) (p : GPacket) (s : Status) (c : Client) → Sends (with_request o p s c)
unfolding with_request
with_request-Sends none p s c = tt
with_request-Sends (some r) p s c = after_status-Sends p.sub_id p s c

finished-Sends : (o : Option (Status × Trace)) (p : GPacket) (c : Client) → Sends (finished o p c)
unfolding finished
finished-Sends none p c = tt
finished-Sends (some (s, t)) p c = with_request-Sends _ p s _

last_response-Sends : (o : Option Trace) (p : GPacket) (c : Client) → Sends (last_response o p c)
unfolding last_response
last_response-Sends none p c = tt
last_response-Sends (some t) p c = finished-Sends _ p c

-- The kinds that the strategy handles.
by_kind-Sends :
    (k : Kind) (a b : Option (List Out × Client)) (c : Client)
    → Sends a
    → Sends b
    → Sends (elim k [ pfs_w_resp ↦ a | pfs_r_data_last ↦ b | pfs_w_fin ↦ b | _ ↦ some ([], c) ])
by_kind-Sends pfs_w_resp a b c h g = h
by_kind-Sends pfs_r_data_last a b c h g = g
by_kind-Sends pfs_w_fin a b c h g = g
by_kind-Sends _ a b c h g = tt

pub handle_data_packet_response-Sends :
    (p : GPacket) (c : Client) → Sends (handle_data_packet_response p c)
unfolding handle_data_packet_response process_data_packet_response process_last_data_packet_response
handle_data_packet_response-Sends p c =
    by_kind-Sends p.kind _ _ c
      (transferred-Sends c _ (
        split-AllRequests c.packet_size_limit (p.low_offset + p.size) p (suc p.size) (p.id + 1)
          p.low_offset))
      (last_response-Sends (find_by (has_trace_id p.sub_id) c.traces) p c)
