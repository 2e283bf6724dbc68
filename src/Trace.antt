-- ===== src/Trace.antt =====
-- omnetpp/trace/WindowBasedTrace.cc: one request of an application, sent to the data servers window
-- by window.
pub mod Distribute
pub mod Offset
pub mod Place
pub mod Window
pub mod Run
pub mod Start
pub mod Subreqs
pub mod Progress
pub mod Answers
mod Tests
use pfssim.Base.{
  ℕ, zero, suc, ◌+◌, ◌-◌, ◌*◌, ◌/◌, ◌%◌, Bool, true, false, not, ◌&&◌, ◌||◌, Option, none, some,
  ltb, leb, ◌==◌, if◌then◌else◌, update,
}
use pfssim.Packet.{GPacket, self_event}
use pfssim.Layout.{Layout, find_server_index, get_window_size, get_server_id}

-- General.h
abbrev pub lowoffset_range : ℕ
lowoffset_range = 0x10000000

-- `MAX_WINDOW_SIZE`, which is `JOB_MAXSIZE`.
abbrev pub max_window_size : ℕ
max_window_size = 0xa00000

-- A cell of `dataSizeInWindow`: an amount that is not sent (`SW_NULL` is 0), or `SW_RECEIVED` or
-- `SW_SENT`.
pub data Slot : Type 0 where
  unsent : ℕ → Slot
  received sent : Slot

pub data Status : Type 0 where
  invalid need_wait more_to_send all_done : Status

pub record Trace : Type 0 where
  pub id : ℕ
  pub pfs_file_id : ℕ
  pub offset : ℕ
  pub total_size : ℕ
  pub read : Bool
  pub application_id : ℕ
  pub trace_file_id : ℕ
  pub sync : ℕ
  pub layout : Option Layout
  pub dsoffsets : ℕ → ℕ
  pub data_size_in_window : ℕ → Slot
  pub sent_pkt_size : ℕ → ℕ
  pub unprocessed_size : ℕ
  pub aggregate_size : ℕ
  pub offset_start_server : ℕ
  pub offset_start_position : ℕ
  pub total_subreqs_in_window : ℕ

-- `AppRequest`, without its times.
pub record AppRequest : Type 0 where
  pub id : ℕ
  pub app : ℕ
  pub file_id : ℕ
  pub high_offset : ℕ
  pub low_offset : ℕ
  pub read : Bool
  pub total_size : ℕ
  pub trace_file_id : ℕ
  pub sync : ℕ

-- `initialize(request)`; the other members keep what they hold.
unfoldable pub initialize : AppRequest → Trace → Trace
initialize r t = record t {
  id = r.id;
  pfs_file_id = r.file_id;
  offset = r.high_offset * lowoffset_range + r.low_offset;
  total_size = r.total_size;
  read = r.read;
  application_id = r.app;
  trace_file_id = r.trace_file_id;
  sync = r.sync;
  unprocessed_size = r.total_size;
}

-- The first cell from `i` on, of `n`, that holds an amount to send.
unfoldable pub first_unsent : (ℕ → Slot) → ℕ → ℕ → Option (ℕ × ℕ)
first_unsent cells i zero = none
first_unsent cells i (suc n) =
    let rest = first_unsent cells (i + 1) n in
    elim (cells i) [
      | unsent k ↦ if ltb 0 k then some (i, k) else rest
      | received ↦ rest
      | sent ↦ rest
    ]

-- The packet for server `i`, and the cell marked as sent.
unfoldable pub send_slot : Layout → ℕ → ℕ → Trace → GPacket × Trace
send_slot l i k t = (
  record {
    kind = self_event;
    id = 0;
    sub_id = t.id;
    app = t.application_id;
    size = k;
    client_id = 0;
    file_id = t.pfs_file_id;
    high_offset = t.dsoffsets i / lowoffset_range;
    low_offset = t.dsoffsets i % lowoffset_range;
    read = t.read;
    ds_id = l.server_list i;
    aggregate_size = t.aggregate_size;
    total_subreqs = t.total_subreqs_in_window;
    sub_req_num = 0;
    o_direct = false;
  },
  record t {
    sent_pkt_size = update t.sent_pkt_size i k;
    data_size_in_window = update t.data_size_in_window i sent;
  },
)

unfoldable pub send_found : Layout → Option (ℕ × ℕ) → Trace → Option GPacket × Trace
send_found l none t = (none, t)
send_found l (some (i, k)) t = let (p, t') = send_slot l i k t in (some p, t')

unfoldable pub get_next_from : Option Layout → Trace → Option GPacket × Trace
unfolding send_found
get_next_from none t = (none, t)
get_next_from (some l) t = send_found l (first_unsent t.data_size_in_window 0 l.server_num) t

unfoldable pub get_next_g_packet_from_window : Trace → Option GPacket × Trace
unfolding get_next_from
get_next_g_packet_from_window t = get_next_from t.layout t

-- The loop of `openNewWindow` over the servers, on fuel; `none` means that the fuel ran out. `sizes`
-- are the amounts for the new window.
unfoldable pub distribute : Trace → Layout → ℕ → ℕ → ℕ → Bool → (ℕ → ℕ) → Option (ℕ → ℕ)
distribute t l zero i left firsttime sizes = none
distribute t l (suc fuel) i left firsttime sizes =
    let i' = if i == l.server_num then 0 else i in
    let first = (i' == t.offset_start_server) && firsttime in
    let stripe = l.server_stripe_sizes i' in
    let inc = if first then stripe - t.offset_start_position else stripe in
    let placed = if ltb inc left then inc else left in
    let rest =
      distribute t l fuel (i' + 1) (if ltb inc left then left - inc else 0) (firsttime && not first)
        (update sizes i' (sizes i' + placed)) in
    if left == 0 then some sizes else rest

-- `dataSizeInWindow > 0` in the count compares the array itself, whose address is not NULL.
abbrev array_is_set : Bool
array_is_set = true

pub count_subreqs : ℕ → ℕ
count_subreqs zero = 0
count_subreqs (suc n) = count_subreqs n + (if array_is_set then 1 else 0)

-- The cells below `n` take the amounts.
pub fill_cells : ℕ → (ℕ → ℕ) → (ℕ → Slot) → ℕ → Slot
fill_cells n sizes cells i = if ltb i n then unsent (sizes i) else cells i

-- The amounts for a window of `agg` bytes. The fuel is shown to be enough.
pub shares : Trace → Layout → ℕ → Option (ℕ → ℕ)
shares t l agg = distribute t l (suc (suc agg)) t.offset_start_server agg true (λ i. 0)

unfoldable pub fill_window : Trace → Layout → ℕ → Option (ℕ → ℕ) → Trace
unfolding fill_cells count_subreqs
fill_window t l agg none = t
fill_window t l agg (some sizes) = record t {
  aggregate_size = agg;
  unprocessed_size = t.unprocessed_size - agg;
  data_size_in_window = fill_cells l.server_num sizes t.data_size_in_window;
  total_subreqs_in_window = count_subreqs l.server_num;
}

-- `aggregateSize` of the next window.
abbrev pub next_size : Trace → ℕ
next_size t = if ltb max_window_size t.unprocessed_size then max_window_size else t.unprocessed_size

unfoldable pub open_from : Option Layout → Trace → Bool × Trace
open_from none t = (false, t)
open_from (some l) t =
    if t.unprocessed_size == 0
    then (false, t)
    else (true, fill_window t l (next_size t) (shares t l (next_size t)))

unfoldable pub open_new_window : Trace → Bool × Trace
unfolding open_from
open_new_window t = open_from t.layout t

-- Whether a cell below `n` awaits its answer.
unfoldable pub any_sent : (ℕ → Slot) → ℕ → Bool
any_sent cells zero = false
any_sent cells (suc n) = any_sent cells n || elim (cells n) [ sent ↦ true | _ ↦ false ]

-- Whether a cell below `n` is unsent, with an amount, or awaits its answer.
unfoldable pub any_open : (ℕ → Slot) → ℕ → Bool
any_open cells zero = false
any_open cells (suc n) =
    any_open cells n || elim (cells n) [ unsent k ↦ ltb 0 k | sent ↦ true | received ↦ false ]

unfoldable pub after_open : Bool × Trace → Option GPacket × Trace
unfolding get_next_g_packet_from_window
after_open (false, t) = (none, t)
after_open (true, t) = get_next_g_packet_from_window t

-- What follows where the window has no packet to send.
unfoldable pub move_on : Layout → Trace → Option GPacket × Trace
unfolding after_open
move_on l t =
    if any_sent t.data_size_in_window l.server_num
    then (none, t)
    else after_open (open_new_window t)

unfoldable pub or_move_on : Layout → Option GPacket × Trace → Option GPacket × Trace
unfolding move_on
or_move_on l (some p, t) = (some p, t)
or_move_on l (none, t) = move_on l t

unfoldable pub next_from : Option Layout → Trace → Option GPacket × Trace
unfolding or_move_on
next_from none t = (none, t)
next_from (some l) t =
    let (w, l') = get_window_size l in
    let t' = record t { layout = some l' } in
    if w == 0 then (none, t') else or_move_on l' (get_next_g_packet_from_window t')

unfoldable pub next_g_packet : Trace → Option GPacket × Trace
unfolding next_from
next_g_packet t = next_from t.layout t

-- `finishedgPacket` for the server of index `i`.
unfoldable pub mark_received : Layout → ℕ → Trace → Status × Trace
mark_received l i t = (status, t')
  where
    t' : Trace
    t' = record t {
      data_size_in_window = update t.data_size_in_window i received;
      dsoffsets = update t.dsoffsets i (t.dsoffsets i + t.sent_pkt_size i);
    }

    status : Status
    status =
        if any_open t'.data_size_in_window l.server_num
        then need_wait
        else if t'.unprocessed_size == 0
        then all_done
        else more_to_send

-- A packet from a server that is not in the layout is an error, which ends the program.
unfoldable pub finish_at : Layout → Option ℕ → Trace → Option (Status × Trace)
unfolding mark_received
finish_at l none t = none
finish_at l (some i) t = some (mark_received l i t)

unfoldable pub finish_from : Option Layout → GPacket → Trace → Option (Status × Trace)
unfolding finish_at
finish_from none p t = none
finish_from (some l) p t = finish_at l (find_server_index p.ds_id l) t

-- `none` stands for the error, or for the use of a layout that is NULL.
unfoldable pub finished_g_packet : GPacket → Trace → Option (Status × Trace)
unfolding finish_from
finished_g_packet p t = finish_from t.layout p t
