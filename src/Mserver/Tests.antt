-- ===== src/Mserver/Tests.antt =====
-- A server that knows one file, which lies on two servers.
use pfssim.Base.{◌≡◌, find_by, refl, some, [], ◌∷◌}
use pfssim.Layout.{QPacket}
use pfssim.Files.{PfsFile, new_file, create_metadata_packet, find_pfs_file}
use pfssim.Scheduler.Samples.{whole}
use pfssim.Client.Tests.{two_servers}
use pfssim.Mserver.{MetadataServer, layout_req, handle_message}
use pfssim.Mserver.Exchange.{Teaches, handle_message-Teaches}

abbrev known : PfsFile
known = record { id = 5; layout = some two_servers }

abbrev server : MetadataServer whole
server = record {
  metadata_packet_process_time = 3;
  data_packet_process_time = 0;
  pfs_files = new_file 4 ∷ known ∷ [];
}

abbrev query : QPacket
query = create_metadata_packet 1000 2 0 (new_file 5)

query-known : find_pfs_file query.file_id server.pfs_files ≡ some known
unfolding find_pfs_file find_by create_metadata_packet
query-known = refl

handle_message-Teaches_example :
    Teaches whole server 10 query two_servers
      (new_file 5)
      (handle_message whole server 10 (layout_req query))
handle_message-Teaches_example =
    handle_message-Teaches whole server 10 query known (new_file 5) two_servers query-known refl
