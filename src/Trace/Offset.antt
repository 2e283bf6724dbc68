-- ===== src/Trace/Offset.antt =====
-- `setLayout` (omnetpp/trace/WindowBasedTrace.cc): where the offset of a trace falls on the servers.
use pfssim.Base.{
  ℕ, zero, suc, ◌+◌, ◌-◌, ◌*◌, ◌/◌, ◌%◌, Option, none, some, leb, if◌then◌else◌, update,
}
use pfssim.Layout.{Layout, get_window_size}
use pfssim.Trace.{Trace, fill_cells, open_new_window}

-- One round of the loop of `setLayout`, for server `i`; `none` is the remainder -1.
unfoldable pub place_server : Layout → ℕ → ℕ → Option ℕ → Trace → Option ℕ × Trace
place_server l jumps i none t =
    (none, record t { dsoffsets = update t.dsoffsets i (jumps * l.server_stripe_sizes i) })
place_server l jumps i (some remainder) t =
    let stripe = l.server_stripe_sizes i in
    if leb remainder stripe
    then (
      none,
      record t {
        dsoffsets = update t.dsoffsets i (jumps * stripe + remainder);
        offset_start_server = i;
        offset_start_position = remainder;
      },
    )
    else (
      some (remainder - stripe),
      record t { dsoffsets = update t.dsoffsets i (jumps * stripe + stripe) },
    )

-- The rounds of the servers below `n`.
unfoldable pub place_upto : Layout → ℕ → ℕ → Option ℕ → Trace → Option ℕ × Trace
unfolding place_server
place_upto l jumps zero remainder t = (remainder, t)
place_upto l jumps (suc n) remainder t =
    let (left, t') = place_upto l jumps n remainder t in place_server l jumps n left t'

-- What `setLayout` does after that loop: the cells are emptied and the first window is opened.
unfoldable pub begin : Layout → Trace → Trace
unfolding fill_cells
begin l t =
    (open_new_window (record t {
      layout = some l;
      data_size_in_window = fill_cells l.server_num (λ i. 0) t.data_size_in_window;
    })).1

unfoldable pub set_from : ℕ × Layout → Trace → Trace
unfolding begin
set_from (w, l) t = begin l (place_upto l (t.offset / w) l.server_num (some (t.offset % w)) t).1

-- `setLayout`; the source divides by the window size, which is not 0 there.
unfoldable pub set_layout : Layout → Trace → Trace
unfolding set_from
set_layout l t = set_from (get_window_size l) t
