-- ===== src/Trace/Tests.antt =====
-- A request of 7 bytes at offset 12, on two servers with stripes of 4 and 6 bytes.
use pfssim.Base.{
  ℕ, ◌+◌, ◌/◌, ◌%◌, ◌<◌, ◌≡◌, refl, true, false, Option, none, some, List, [], update, to_list,
  ◌++◌, arith,
}
use pfssim.Packet.{GPacket}
use pfssim.Layout.{Layout, sum_upto, find_server_index, get_window_size}
use pfssim.Trace.{
  Trace, AppRequest, Slot, unsent, received, sent, Status, all_done, initialize, next_g_packet,
  finished_g_packet, shares,
}
use pfssim.Trace as T
use pfssim.Trace.Offset as O
use pfssim.Packet.{self_event}
use pfssim.Trace.Place.{Placed, set_layout-place}
use pfssim.Trace.Run.{Carries}
use pfssim.Trace.Progress.{HandsOut, next_g_packet-HandsOut}
use pfssim.Trace.{any_sent}
use mathlib.Core.Logic.{inr}
use pfssim.Trace.Start.{set_layout-Carries}
use pfssim.Trace.Answers.{
  Reaches, begun, asked, answered, Awaits, bytes, Reaches-Carries, all_done-bytes,
}
use pfssim.Trace.Distribute.{IsStriped, Striped}

abbrev two_servers : Layout
two_servers = record {
  file_id = some 5;
  window_size = some 10;
  server_num = 2;
  server_list = λ i. i + 100;
  server_stripe_sizes = update (λ i. 4) 1 6;
}

abbrev blank : Trace
blank = record {
  id = 0;
  pfs_file_id = 0;
  offset = 0;
  total_size = 0;
  read = false;
  application_id = 0;
  trace_file_id = 0;
  sync = 0;
  layout = none;
  dsoffsets = λ i. 0;
  data_size_in_window = λ i. unsent 0;
  sent_pkt_size = λ i. 0;
  unprocessed_size = 0;
  aggregate_size = 0;
  offset_start_server = 0;
  offset_start_position = 0;
  total_subreqs_in_window = 0;
}

abbrev request : AppRequest
request = record {
  id = 9;
  app = 1;
  file_id = 5;
  high_offset = 0;
  low_offset = 12;
  read = true;
  total_size = 7;
  trace_file_id = 2;
  sync = 1;
}

abbrev t0 : Trace
t0 = O.set_layout two_servers (initialize request blank)

stripes : (i : ℕ) → i < 2 → 0 < update (λ i. 4) 1 6 i
stripes i h = ground arith

two_servers-IsStriped : IsStriped 0 2 two_servers
two_servers-IsStriped = record {
  start_server = omega arith;
  start_position = omega arith;
  stripes = stripes;
}

t0-Striped : Striped t0 two_servers
unfolding initialize get_window_size T.distribute shares T.fill_window T.open_new_window
    O.place_upto O.set_layout
t0-Striped = two_servers-IsStriped

set_layout-place_example :
    let t = initialize request blank in
    Placed two_servers (t.offset / 10) (t.offset % 10) 2 (none, O.set_layout two_servers t)
unfolding sum_upto
set_layout-place_example =
    set_layout-place two_servers (initialize request blank) refl (omega arith)

t0-Carries : Carries 7 0 t0
unfolding initialize sum_upto
t0-Carries = set_layout-Carries two_servers (initialize request blank) refl (omega arith) stripes

abbrev asked0 : Option GPacket × Trace
asked0 = next_g_packet t0

abbrev asked1 : Option GPacket × Trace
asked1 = next_g_packet asked0.1

abbrev packets : List GPacket
packets = to_list asked1.0 ++ (to_list asked0.0 ++ [])

-- The answer of the server with an ID.
abbrev answer_of : ℕ → GPacket
answer_of id = record {
  kind = self_event;
  id = 0;
  sub_id = 9;
  app = 1;
  size = 0;
  client_id = 0;
  file_id = 5;
  high_offset = 0;
  low_offset = 0;
  read = true;
  ds_id = id;
  aggregate_size = 7;
  total_subreqs = 2;
  sub_req_num = 0;
  o_direct = false;
}

abbrev answered1 : Trace
answered1 = (T.mark_received two_servers 1 asked1.1).1

abbrev answered0 : Trace
answered0 = (T.mark_received two_servers 0 answered1).1

asked_twice : Reaches t0 packets asked1.1
asked_twice = asked (asked begun)

awaits1 : Awaits (answer_of 101) asked1.1
unfolding next_g_packet O.set_layout T.open_new_window O.place_upto get_window_size initialize
    T.fill_window shares T.distribute T.first_unsent T.send_slot find_server_index
awaits1 = (two_servers, 1, refl, refl, refl)

one_answer : Reaches t0 packets answered1
unfolding finished_g_packet next_g_packet O.set_layout T.open_new_window O.place_upto
    get_window_size initialize T.fill_window shares T.distribute T.first_unsent T.send_slot
    find_server_index
one_answer = answered asked_twice (answer_of 101) awaits1 refl

awaits0 : Awaits (answer_of 100) answered1
unfolding T.mark_received next_g_packet O.set_layout T.open_new_window O.place_upto get_window_size
    initialize T.fill_window shares T.distribute T.first_unsent T.send_slot find_server_index
awaits0 = (two_servers, 0, refl, refl, refl)

Reaches-Carries_example : Carries 7 (bytes packets) answered1
Reaches-Carries_example = Reaches-Carries 7 t0 t0-Carries packets answered1 one_answer

last_answer : finished_g_packet (answer_of 100) answered1 ≡ some (all_done, answered0)
unfolding finished_g_packet next_g_packet O.set_layout T.open_new_window O.place_upto
    get_window_size initialize T.fill_window shares T.distribute T.first_unsent T.send_slot
    find_server_index T.any_open
last_answer = refl

all_done-bytes_example : bytes packets ≡ 7
all_done-bytes_example =
    all_done-bytes 7 t0 t0-Carries packets answered1 answered0 one_answer (answer_of 100) awaits0
      last_answer

-- A request of 1 byte has a window of one packet.
abbrev small : Trace
small = record (initialize request blank) {
  layout = some two_servers;
  unprocessed_size = 1;
  offset_start_server = 0;
  offset_start_position = 2;
}

nothing_sent : any_sent small.data_size_in_window 2 ≡ false
unfolding any_sent initialize
nothing_sent = refl

-- With nothing sent yet, the small request has one window to open.
next_g_packet-HandsOut_example : HandsOut (next_g_packet small)
next_g_packet-HandsOut_example =
    next_g_packet-HandsOut small two_servers 9 refl refl two_servers-IsStriped
      (inr (nothing_sent, ground arith))
