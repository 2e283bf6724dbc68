-- ===== src/Client/Tests.antt =====
-- A trace of 7 bytes on two servers.
use pfssim.Base.{ℕ, ◌+◌, ◌<◌, refl, true, none, some, update, arith}
use pfssim.Layout.{Layout, sum_upto}
use pfssim.Trace.Offset as O
use pfssim.Trace.{Trace, unsent}
use pfssim.Trace.Run.{Carries}
use pfssim.Trace.Start.{set_layout-Carries}
use pfssim.Client.{send_all, rounds}
use pfssim.Client.Bytes.{SendsAll, send_all-SendsAll}

abbrev pub two_servers : Layout
two_servers = record {
  file_id = some 5;
  window_size = some 10;
  server_num = 2;
  server_list = λ i. i + 100;
  server_stripe_sizes = update (λ i. 4) 1 6;
}

abbrev pub waiting : Trace
waiting = record {
  id = 9;
  pfs_file_id = 5;
  offset = 12;
  total_size = 7;
  read = true;
  application_id = 1;
  trace_file_id = 0;
  sync = 0;
  layout = none;
  dsoffsets = λ i. 0;
  data_size_in_window = λ i. unsent 0;
  sent_pkt_size = λ i. 0;
  unprocessed_size = 7;
  aggregate_size = 0;
  offset_start_server = 0;
  offset_start_position = 0;
  total_subreqs_in_window = 0;
}

stripes : (i : ℕ) → i < 2 → 0 < update (λ i. 4) 1 6 i
stripes i h = ground arith

started-Carries : Carries 7 0 (O.set_layout two_servers waiting)
unfolding sum_upto
started-Carries = set_layout-Carries two_servers waiting refl (omega arith) stripes

send_all-SendsAll_example :
    let t = O.set_layout two_servers waiting in
    SendsAll 7 0 (send_all (rounds t.layout) 3 3001000 t)
send_all-SendsAll_example =
    send_all-SendsAll 7 0 3 3001000 (O.set_layout two_servers waiting) started-Carries
