-- ===== src/Client/Module/Handles.antt =====
-- What a client makes of a message (omnetpp/client/pfsclient/PFSClient.cc): all that its strategy puts into
-- the list is sent or set for later.
use pfssim.Base.{◌≡◌, refl, true, false, Option, none, some, List, Arith, arith}
use pfssim.Packet.{Kind, pfs_w_resp, pfs_w_fin, pfs_r_data, pfs_r_data_last}
use pfssim.Trace.{Trace}
use pfssim.Client.{
  Client, Out, handle_new_trace, handle_metadata_packet_response, handle_data_packet_response,
}
use pfssim.Client.Module.{
  ProcessTimes, Effect, is_request, is_response, Message, trace_req, trace_resp, layout_req,
  layout_resp, packet, with_client, process_packet_list, handle_message, processed,
}
use pfssim.Client.Module.Times.{IsTimed, Timed, process_from-IsTimed}
use pfssim.Client.Module.Sends.{
  Sends, handle_new_trace-Sends, handle_metadata_packet_response-Sends,
  handle_data_packet_response-Sends,
}

response_is_no_request : (k : Kind) → is_response k ≡ true → is_request k ≡ false
response_is_no_request pfs_w_resp h = refl
response_is_no_request pfs_r_data h = refl
response_is_no_request pfs_r_data_last h = refl
response_is_no_request pfs_w_fin h = refl
response_is_no_request _ h = ground (arith, h)

module _ (F : Arith) (blank : Trace) (c : ProcessTimes F) (now : F.Double) where
  -- The messages that the module passes on to its strategy.
  abbrev pub IsReceived : Message F → Type 0
  IsReceived (trace_req r) = Unit
  IsReceived (layout_resp q) = Unit
  IsReceived (packet p) = is_response p.kind ≡ true
  IsReceived _ = ⊥

  abbrev pub strategy : Message F → Client → Option (List Out × Client)
  strategy (trace_req r) x = handle_new_trace blank r x
  strategy (layout_resp q) x = handle_metadata_packet_response q x
  strategy (packet p) x = handle_data_packet_response p x
  strategy _ x = none

  -- The client is as the strategy leaves it, and all that the strategy put into the list goes out, in order.
  abbrev pub Follows : Option (List Out × Client) → Option (List (Effect F) × Client) → Type 0
  Follows none r = r ≡ none
  Follows (some (os, x)) none = ⊥
  Follows (some (os, x)) (some (es, y)) = (y ≡ x) × Timed F c now now now os es

  with_client-Follows :
      (os : List Out) (x : Client) (o : Option (List (Effect F)))
      → IsTimed F c now now now os o
      → Follows (some (os, x)) (with_client F x o)
  with_client-Follows os x none h = h
  with_client-Follows os x (some es) h = (refl, h)

  processed-Follows : (o : Option (List Out × Client)) → Sends o → Follows o (processed F c now o)
  unfolding process_packet_list
  processed-Follows none s = refl
  processed-Follows (some (os, x)) s =
      with_client-Follows os x _ (process_from-IsTimed F c now now now os s)

  -- A request of the application, an answer of the metadata server or a response of a data server ends in an
  -- error just where its strategy does; otherwise the client is as the strategy leaves it, and all that is in the list goes out, in
  -- order: an answer at once, the packets at steps of their processing time and the queries at steps of
  -- theirs, or at once where that time is 0.
  pub handle_message-Follows :
      (msg : Message F) (x : Client)
      → IsReceived msg
      → Follows (strategy msg x) (handle_message F blank c now msg x)
  unfolding handle_message
  handle_message-Follows (trace_req r) x h = processed-Follows _ (handle_new_trace-Sends blank r x)
  handle_message-Follows (layout_resp q) x h =
      processed-Follows _ (handle_metadata_packet_response-Sends q x)
  handle_message-Follows (packet p) x h =
      rw (response_is_no_request p.kind h, h)
        (processed-Follows _ (handle_data_packet_response-Sends p x))
  handle_message-Follows (trace_resp t r) x h = absurd h
  handle_message-Follows (layout_req q) x h = absurd h
