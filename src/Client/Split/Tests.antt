-- ===== src/Client/Split/Tests.antt =====
-- A write of 10 bytes at a limit of 4 bytes.
use pfssim.Base.{refl, false, arith}
use pfssim.Packet.{GPacket, pfs_w_resp}
use pfssim.Client.Split.{Sends, process_data_packet_response, process_data_packet_response-Sends}

abbrev pub write : GPacket
write = record {
  kind = pfs_w_resp;
  id = 1000;
  sub_id = 9;
  app = 1;
  size = 10;
  client_id = 0;
  file_id = 5;
  high_offset = 0;
  low_offset = 64;
  read = false;
  ds_id = 100;
  aggregate_size = 10;
  total_subreqs = 1;
  sub_req_num = 0;
  o_direct = false;
}

process_data_packet_response-Sends_example :
    Sends 4 74 1001 64 (process_data_packet_response 4 write)
process_data_packet_response-Sends_example =
    process_data_packet_response-Sends 4 write (omega arith) refl
