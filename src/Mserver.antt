-- ===== src/Mserver.antt =====
-- omnetpp/mserver/MetadataServer.cc: the metadata server. It answers queries by its strategy
-- (Files), at once or after a processing time.
pub mod Exchange
mod Tests
use pfssim.Base.{
  ℕ, ◌≡◌, refl, Bool, true, false, Option, none, some, List, [], ◌∷◌, map, if◌then◌else◌, Arith,
  arith,
}
use pfssim.Packet.{
  GPacket, Kind, pfs_w_req, pfs_r_req, pfs_w_data, pfs_w_data_last, pfs_w_resp, pfs_r_data,
  pfs_r_data_last,
}
use pfssim.Layout.{QPacket}
use pfssim.Files.{PfsFile, handle_metadata_packet}

-- A message, or an entry of a list: a query, an answer to one, or a packet.
pub data Message : Type 0 where
  layout_req : QPacket → Message
  layout_resp : QPacket → Message
  packet : GPacket → Message

abbrev is_request : Kind → Bool
is_request pfs_w_req = true
is_request pfs_r_req = true
is_request pfs_w_data = true
is_request pfs_w_data_last = true
is_request _ = false

abbrev is_response : Kind → Bool
is_response pfs_w_resp = true
is_response pfs_r_data = true
is_response pfs_r_data_last = true
is_response _ = false

abbrev answers : Option (List QPacket) → Option (List Message)
answers none = none
answers (some qs) = some (map layout_resp qs)

module _ (F : Arith) where
  -- A message that is sent once the channel is free, or one that the server gets back at a time, which is also its rise
  -- time.
  pub data Effect : Type 0 where
    to_eth : Message → Effect
    schedule : F.Double → Message → Effect

  pub record MetadataServer : Type 0 where
    pub metadata_packet_process_time : F.Double
    pub data_packet_process_time : F.Double
    pub pfs_files : List PfsFile

  -- `none` stands for an error, which ends the program.
  abbrev prepend : Effect → Option (List Effect) → Option (List Effect)
  prepend e none = none
  prepend e (some es) = some (e ∷ es)

  -- `processPacketList` from an entry on, with the rise times of the entry before it.
  pub process_from : MetadataServer → F.Double → F.Double → List Message → Option (List Effect)
  process_from s rise meta_rise [] = some []
  process_from s rise meta_rise (packet p ∷ ms) =
      let rise' = F.add rise s.data_packet_process_time in
      let later = prepend (schedule rise' (packet p)) (process_from s rise' meta_rise ms) in
      let at_once = prepend (to_eth (packet p)) (process_from s rise meta_rise ms) in
      if is_request p.kind
      then if F.eq s.data_packet_process_time F.zero then at_once else later
      else none
  process_from s rise meta_rise (layout_resp q ∷ ms) =
      let rise' = F.add meta_rise s.metadata_packet_process_time in
      let later = prepend (schedule rise' (layout_resp q)) (process_from s rise rise' ms) in
      let at_once = prepend (to_eth (layout_resp q)) (process_from s rise meta_rise ms) in
      if F.eq s.metadata_packet_process_time F.zero then at_once else later
  process_from s rise meta_rise (layout_req q ∷ ms) = none

  pub process_packet_list : MetadataServer → F.Double → Option (List Message) → Option (List Effect)
  unfolding process_from
  process_packet_list s now none = none
  process_packet_list s now (some ms) = process_from s now now ms

  -- What follows a response in the switch, where there is no `break`: the error of the default.
  abbrev fall_through : Option (List Effect) → Option (List Effect)
  fall_through r = none

  -- The strategy answers a response with an empty list.
  pub handle_message : MetadataServer → F.Double → Message → Option (List Effect)
  unfolding process_packet_list
  handle_message s now (layout_req q) =
      process_packet_list s now (answers (handle_metadata_packet q s.pfs_files))
  handle_message s now (layout_resp q) = some (to_eth (layout_resp q) ∷ [])
  handle_message s now (packet p) =
      let responded = process_packet_list s now (some []) in
      if is_request p.kind
      then some (to_eth (packet p) ∷ [])
      else if is_response p.kind
      then fall_through responded
      else none
