-- ===== src/Dsd/Tests.antt =====
-- The daemon at a read of 10 bytes, in sub-requests of 4 bytes and packets of 3.
use pfssim.Base.{ℕ, refl, pos, Bool, true, false, List, [], ◌∷◌, find_by, count_by, arith}
use pfssim.Packet.{Kind, GPacket, self_pfs_w_data_last, self_pfs_r_req, pfs_r_data, pfs_r_data_last}
use pfssim.Dsd.{new_req}
use pfssim.Dsd.Serve.{idle, serve}
use pfssim.Dsd.Serve.Read.{IsRequest, Served, new_req-Served}
use pfssim.Dsd.Handlers.{Daemon}

abbrev packet : Kind → Bool → ℕ → ℕ → ℕ → GPacket
packet k r i off s = record {
  kind = k;
  id = i;
  sub_id = 0;
  app = 0;
  size = s;
  client_id = 0;
  file_id = 0;
  high_offset = 0;
  low_offset = off;
  read = r;
  ds_id = 0;
  aggregate_size = s;
  total_subreqs = 1;
  sub_req_num = 1;
  o_direct = false;
}

abbrev read : GPacket
read = packet self_pfs_r_req true 2000 64 10

abbrev others : List GPacket
others = packet self_pfs_r_req true 3000 0 8 ∷ []

new_req-Served_example :
    Served 4 [] (pos 8) others read 64 (serve 12 (new_req read (idle 4 [] (pos 8) others)))
new_req-Served_example =
    new_req-Served 4 [] (pos 8) others read (omega arith) asked (unfold find_by in refl) refl
  where
    asked : IsRequest 4 [] (pos 8) others read
    asked = unfold count_by in (refl, refl, refl)

abbrev write : GPacket
write = packet self_pfs_w_data_last false 2007 64 10

abbrev answers : List GPacket
answers =
    packet pfs_r_data true 2001 64 4
    ∷ packet pfs_r_data true 2002 68 4
    ∷ packet pfs_r_data_last true 2000 72 2
    ∷ []

abbrev daemon : Daemon
daemon = record {
  dsd = idle 4 [] (pos 8) [];
  packet_size_limit = 3;
  write_data_proc_time = 1;
  write_metadata_proc_time = 1;
  read_metadata_proc_time = 2;
  small_io_size_threshold = 4;
  direct = false;
  read_pkt_id_map = [];
}
