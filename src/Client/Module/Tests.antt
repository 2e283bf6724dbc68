-- ===== src/Client/Module/Tests.antt =====
-- A client that is told to send the 10 bytes of a write, with 4 bytes in a packet.
use pfssim.Base.{refl}
use pfssim.Scheduler.Samples.{whole}
use pfssim.Client.{Client, init, set_packet_length_limit}
use pfssim.Client.Tests.{waiting}
use pfssim.Client.Split.Tests.{write}
use pfssim.Client.Module.{ProcessTimes, packet, handle_message}
use pfssim.Client.Module.Handles.{Follows, strategy, handle_message-Follows}

abbrev times : ProcessTimes whole
times = record { data_packet_process_time = 2; metadata_packet_process_time = 0 }

abbrev client : Client
client = set_packet_length_limit 4 (init 0)

handle_message-Follows_example :
    Follows whole waiting times 100
      (strategy whole waiting times 100 (packet write) client)
      (handle_message whole waiting times 100 (packet write) client)
handle_message-Follows_example =
    handle_message-Follows whole waiting times 100 (packet write) client refl
