-- ===== src/Trace/Run.antt =====
-- A trace between `setLayout` and its last answer (omnetpp/trace/WindowBasedTrace.cc): the bytes it
-- hands out.
use pfssim.Base.{
  ℕ, ◌+◌, ◌≤◌, ◌≡◌, refl, sym, ap, subst, inl, inr, Bool, true, false, Option, none, some, arith,
  Bool-cases, ◌==◌, if◌then◌else◌,
}
use pfssim.Packet.{GPacket}
use pfssim.Layout.{Layout, size_of, calculate_window_size, get_window_size}
use pfssim.Trace.{
  Trace, sent, send_slot, send_found, get_next_from, get_next_g_packet_from_window, fill_window,
  next_size, open_from, open_new_window, any_sent, after_open, move_on, or_move_on, next_from,
  next_g_packet,
}
use pfssim.Trace.Distribute.{Striped, AddsUp, shares-AddsUp}
use pfssim.Trace.Window.{
  amount, pending, FirstUnsent, first_unsent-FirstUnsent, pending_none, pending-update,
  pending-fill_cells,
}

-- The trace has the layout, and the bytes handed out (`out`), those in the window and those for
-- later windows make up `total`.
abbrev pub Balanced : Layout → ℕ → ℕ → Trace → Type 0
Balanced l total out t =
    (t.layout ≡ some l)
    × Striped t l
    × (out + pending l.server_num t.data_size_in_window + t.unprocessed_size ≡ total)

-- The bytes of a packet that may be there.
abbrev pub bytes_of : Option GPacket → ℕ
bytes_of none = 0
bytes_of (some p) = p.size

abbrev Hands : Layout → ℕ → ℕ → Option GPacket × Trace → Type 0
Hands l total out (o, t) = Balanced l total (bytes_of o + out) t

send_found-Hands :
    (l : Layout) (total out : ℕ) (t : Trace) (o : Option (ℕ × ℕ))
    → FirstUnsent t.data_size_in_window 0 l.server_num o
    → Balanced l total out t
    → Hands l total out (send_found l o t)
unfolding send_found send_slot
send_found-Hands l total out t none h (has, striped, bytes) = (has, striped, omega arith)
send_found-Hands l total out t (some (i, k)) (below, cell, more) (has, striped, bytes) = (
  has,
  striped,
  omega (
    arith,
    pending-update l.server_num t.data_size_in_window i sent (omega arith),
    ap amount cell,
  ),
)

get_next-Hands :
    (l : Layout) (total out : ℕ) (t : Trace)
    → Balanced l total out t
    → Hands l total out (get_next_g_packet_from_window t)
unfolding get_next_g_packet_from_window get_next_from
get_next-Hands l total out t b =
    subst (λ o. Hands l total out (get_next_from o t)) (sym b.0)
      (send_found-Hands l total out t _ (first_unsent-FirstUnsent _ _ _) b)

-- A window is opened when nothing is pending.
fill_window-Balanced :
    (l : Layout) (total out agg : ℕ) (t : Trace) (o : Option (ℕ → ℕ))
    → AddsUp l agg o
    → agg ≤ t.unprocessed_size
    → pending l.server_num t.data_size_in_window ≡ 0
    → Balanced l total out t
    → Balanced l total out (fill_window t l agg o)
unfolding fill_window
fill_window-Balanced l total out agg t none h le dry b = elim h [ ]
fill_window-Balanced l total out agg t (some sizes) h le dry (has, striped, bytes) = (
  has,
  striped,
  omega (arith, pending-fill_cells l.server_num sizes t.data_size_in_window, bytes, dry, le),
)

next_size-le : (t : Trace) → next_size t ≤ t.unprocessed_size
next_size-le t = ground arith

open_from-Balanced :
    (l : Layout) (total out : ℕ) (t : Trace)
    → pending l.server_num t.data_size_in_window ≡ 0
    → Balanced l total out t
    → Balanced l total out (open_from (some l) t).1
unfolding open_from
open_from-Balanced l total out t dry b = elim (Bool-cases (t.unprocessed_size == 0)) [
  | inl done ↦ rw done b
  | inr more ↦ rw more (
      fill_window-Balanced l total out (next_size t) t _ (shares-AddsUp t l b.1 (next_size t))
        (next_size-le t) dry b)
]

after_open-Hands :
    (l : Layout) (total out : ℕ) (o : Bool) (t : Trace)
    → Balanced l total out t
    → Hands l total out (after_open (o, t))
unfolding after_open
after_open-Hands l total out false t (has, striped, bytes) = (has, striped, omega arith)
after_open-Hands l total out true t b = get_next-Hands l total out t b

pub open_new_window-Balanced :
    (l : Layout) (total out : ℕ) (t : Trace)
    → pending l.server_num t.data_size_in_window ≡ 0
    → Balanced l total out t
    → Balanced l total out (open_new_window t).1
unfolding open_new_window
open_new_window-Balanced l total out t dry b =
    subst (λ o. Balanced l total out (open_from o t).1) (sym b.0)
      (open_from-Balanced l total out t dry b)

move_on-Hands :
    (l : Layout) (total out : ℕ) (t : Trace)
    → pending l.server_num t.data_size_in_window ≡ 0
    → Balanced l total out t
    → Hands l total out (move_on l t)
unfolding move_on
move_on-Hands l total out t dry b =
    elim (Bool-cases (any_sent t.data_size_in_window l.server_num)) [
      | inl waits ↦ rw waits (b.0, b.1, omega (arith, b.2))
      | inr idle ↦
          rw idle (after_open-Hands l total out _ _ (open_new_window-Balanced l total out t dry b))
    ]

-- Where a search of the window hands out no packet, nothing is pending.
abbrev Drained : Layout → Option GPacket × Trace → Type 0
Drained l (some p, t) = Unit
Drained l (none, t) = pending l.server_num t.data_size_in_window ≡ 0

send_found-Drained :
    (l : Layout) (t : Trace) (o : Option (ℕ × ℕ))
    → FirstUnsent t.data_size_in_window 0 l.server_num o
    → Drained l (send_found l o t)
unfolding send_found
send_found-Drained l t none h =
    pending_none l.server_num t.data_size_in_window (λ j b. h j (omega arith) (omega arith))
send_found-Drained l t (some (i, k)) h = tt

get_next-Drained :
    (l : Layout) (t : Trace) → t.layout ≡ some l → Drained l (get_next_g_packet_from_window t)
unfolding get_next_g_packet_from_window get_next_from
get_next-Drained l t e =
    subst (λ o. Drained l (get_next_from o t)) (sym e)
      (send_found-Drained l t _ (first_unsent-FirstUnsent _ _ _))

or_move_on-Hands :
    (l : Layout) (total out : ℕ) (o : Option GPacket) (t : Trace)
    → Drained l (o, t)
    → Hands l total out (o, t)
    → Hands l total out (or_move_on l (o, t))
unfolding or_move_on
or_move_on-Hands l total out (some p) t dry b = b
or_move_on-Hands l total out none t dry (has, striped, bytes) =
    move_on-Hands l total out t dry (has, striped, omega (arith, bytes))

-- A trace with some layout that is balanced.
abbrev pub Carries : ℕ → ℕ → Trace → Type 0
Carries total out t = (l : Layout) × Balanced l total out t

size_of-Balanced :
    (l : Layout) (total out : ℕ) (t : Trace) (o : Option ℕ)
    → Balanced l total out t
    → let l' = (size_of o l).1 in Balanced l' total out (record t { layout = some l' })
unfolding size_of calculate_window_size
size_of-Balanced l total out t none (has, striped, bytes) = (
  refl,
  record {
    start_server = striped.start_server;
    start_position = striped.start_position;
    stripes = striped.stripes;
  },
  bytes,
)
size_of-Balanced l total out t (some w) (has, striped, bytes) = (refl, striped, bytes)

sized-Carries :
    (l : Layout) (total out w : ℕ) (t : Trace)
    → Balanced l total out t
    → t.layout ≡ some l
    → let r = if w == 0 then (none, t) else or_move_on l (get_next_g_packet_from_window t) in
      Carries total (bytes_of r.0 + out) r.1
sized-Carries l total out w t b e = elim (Bool-cases (w == 0)) [
  | inl unset ↦ rw unset (l, (b.0, b.1, omega (arith, b.2)))
  | inr set ↦ rw set (
    l,
    or_move_on-Hands l total out _ _ (get_next-Drained l t e) (get_next-Hands l total out t b),
  )
]

-- `nextgPacket` takes the bytes of the packet it hands out from those that were still to be sent.
pub next_g_packet-Carries :
    (total out : ℕ) (t : Trace)
    → Carries total out t
    → Carries total (bytes_of (next_g_packet t).0 + out) (next_g_packet t).1
unfolding next_g_packet next_from get_window_size
next_g_packet-Carries total out t (l, b) =
    subst (λ o. Carries total (bytes_of (next_from o t).0 + out) (next_from o t).1) (sym b.0)
      (sized-Carries (get_window_size l).1 total out (get_window_size l).0 _
        (size_of-Balanced l total out t l.window_size b) refl)
