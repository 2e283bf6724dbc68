-- ===== src/Client/Module.antt =====
-- omnetpp/client/pfsclient/PFSClient.cc: the module around the strategy of a client. It answers the
-- application, and sends queries and packets to the network, at once or after a processing time.
pub mod Times
pub mod Sends
pub mod Handles
mod Tests
use pfssim.Base.{ℕ, Bool, true, false, Option, none, some, List, [], ◌∷◌, if◌then◌else◌, Arith}
use pfssim.Packet.{
  GPacket, Kind, pfs_w_req, pfs_r_req, pfs_w_data, pfs_w_data_last, pfs_w_resp, pfs_r_data,
  pfs_r_data_last, pfs_w_fin,
}
use pfssim.Layout.{QPacket}
use pfssim.Trace.{AppRequest, Trace}
use pfssim.Client.{
  Client, Out, layout_query, data_packet, trace_response, handle_new_trace,
  handle_metadata_packet_response, handle_data_packet_response,
}

abbrev pub is_request : Kind → Bool
is_request pfs_w_req = true
is_request pfs_r_req = true
is_request pfs_w_data = true
is_request pfs_w_data_last = true
is_request _ = false

abbrev pub is_response : Kind → Bool
is_response pfs_w_resp = true
is_response pfs_r_data = true
is_response pfs_r_data_last = true
is_response pfs_w_fin = true
is_response _ = false

module _ (F : Arith) where
  pub record ProcessTimes : Type 0 where
    pub data_packet_process_time : F.Double
    pub metadata_packet_process_time : F.Double

  -- An answer to the application with its finish time, a message to the network once the channel is
  -- free, and one that the module gets back at a time, which is also its rise time.
  pub data Effect : Type 0 where
    to_app : F.Double → AppRequest → Effect
    to_eth : Out → Effect
    schedule : F.Double → Out → Effect

  -- `none` stands for an error, which ends the program.
  abbrev pub prepend : Effect → Option (List Effect) → Option (List Effect)
  prepend e none = none
  prepend e (some es) = some (e ∷ es)

  -- `processPacketList` from a packet on, with the rise times of the packet before it.
  unfoldable pub process_from :
      ProcessTimes → F.Double → F.Double → F.Double → List Out → Option (List Effect)
  process_from c now rise meta_rise [] = some []
  process_from c now rise meta_rise (trace_response r ∷ os) =
      prepend (to_app now r) (process_from c now rise meta_rise os)
  process_from c now rise meta_rise (data_packet p ∷ os) =
      let rise' = F.add rise c.data_packet_process_time in
      let later =
        prepend (schedule rise' (data_packet p)) (process_from c now rise' meta_rise os) in
      let at_once = prepend (to_eth (data_packet p)) (process_from c now rise meta_rise os) in
      if is_request p.kind
      then if F.eq c.data_packet_process_time F.zero then at_once else later
      else none
  process_from c now rise meta_rise (layout_query q ∷ os) =
      let rise' = F.add meta_rise c.metadata_packet_process_time in
      let later = prepend (schedule rise' (layout_query q)) (process_from c now rise rise' os) in
      let at_once = prepend (to_eth (layout_query q)) (process_from c now rise meta_rise os) in
      if F.eq c.metadata_packet_process_time F.zero then at_once else later

  unfoldable pub process_packet_list : ProcessTimes → F.Double → List Out → Option (List Effect)
  unfolding process_from
  process_packet_list c now os = process_from c now now now os

  -- What comes in: a request of the application, the answer to a query, a packet, or a query or an answer
  -- that was set for a time.
  pub data Message : Type 0 where
    trace_req : AppRequest → Message
    trace_resp : F.Double → AppRequest → Message
    layout_req : QPacket → Message
    layout_resp : QPacket → Message
    packet : GPacket → Message

  abbrev pub Result : Type 0
  Result = Option (List Effect × Client)

  abbrev pub with_client : Client → Option (List Effect) → Result
  with_client x none = none
  with_client x (some es) = some (es, x)

  abbrev pub processed : ProcessTimes → F.Double → Option (List Out × Client) → Result
  processed c now none = none
  processed c now (some (os, x)) = with_client x (process_packet_list c now os)

  -- The new trace is given with what its members hold before they are set. The records of the packets
  -- are left out.
  unfoldable pub handle_message : Trace → ProcessTimes → F.Double → Message → Client → Result
  unfolding process_packet_list
  handle_message blank c now (trace_req r) x = processed c now (handle_new_trace blank r x)
  handle_message blank c now (trace_resp t r) x = some (to_app t r ∷ [], x)
  handle_message blank c now (layout_req q) x = some (to_eth (layout_query q) ∷ [], x)
  handle_message blank c now (layout_resp q) x =
      processed c now (handle_metadata_packet_response q x)
  handle_message blank c now (packet p) x =
      let responded = processed c now (handle_data_packet_response p x) in
      if is_request p.kind
      then some (to_eth (data_packet p) ∷ [], x)
      else if is_response p.kind
      then responded
      else none
