-- ===== src/Trace/Progress.antt =====
-- `nextgPacket` (omnetpp/trace/WindowBasedTrace.cc) does not get stuck.
use pfssim.Base.{
  ℕ, suc, ◌≡◌, ◌≢◌, refl, sym, subst, ◌∙◌, inl, inr, ◌⊎◌, false, Option, none, some, Bool-cases,
  ◌==◌, ==_iff, if◌then◌else◌, arith,
}
use pfssim.Packet.{GPacket}
use pfssim.Layout.{Layout, get_window_size}
use pfssim.Trace.{
  Trace, send_found, get_next_from, get_next_g_packet_from_window, fill_window, next_size,
  open_from, open_new_window, any_sent, after_open, move_on, or_move_on, next_from, next_g_packet,
}
use pfssim.Trace.Distribute.{Striped, AddsUp, shares-AddsUp}
use pfssim.Trace.Place.{known_window_size, fill_window-SamePlace}
use pfssim.Trace.Window.{
  pending, FirstUnsent, first_unsent-FirstUnsent, pending_none, pending-fill_cells,
}

abbrev pub HandsOut : Option GPacket × Trace → Type 0
HandsOut (none, t) = ⊥
HandsOut (some p, t) = Unit

send_found-HandsOut :
    (l : Layout) (t : Trace) (o : Option (ℕ × ℕ))
    → FirstUnsent t.data_size_in_window 0 l.server_num o
    → pending l.server_num t.data_size_in_window ≢ 0
    → HandsOut (send_found l o t)
unfolding send_found
send_found-HandsOut l t none h some_bytes =
    some_bytes
      (pending_none l.server_num t.data_size_in_window (λ j b. h j (omega arith) (omega arith)))
send_found-HandsOut l t (some (i, k)) h some_bytes = tt

get_next-HandsOut :
    (l : Layout) (t : Trace)
    → t.layout ≡ some l
    → pending l.server_num t.data_size_in_window ≢ 0
    → HandsOut (get_next_g_packet_from_window t)
unfolding get_next_g_packet_from_window get_next_from
get_next-HandsOut l t e some_bytes =
    subst (λ o. HandsOut (get_next_from o t)) (sym e)
      (send_found-HandsOut l t _ (first_unsent-FirstUnsent _ _ _) some_bytes)

next_size-positive : (t : Trace) → t.unprocessed_size ≢ 0 → next_size t ≢ 0
next_size-positive t h = ground arith

fill_window-pending :
    (l : Layout) (agg : ℕ) (t : Trace) (o : Option (ℕ → ℕ))
    → AddsUp l agg o
    → agg ≢ 0
    → pending l.server_num (fill_window t l agg o).data_size_in_window ≢ 0
unfolding fill_window
fill_window-pending l agg t none h some_bytes = elim h [ ]
fill_window-pending l agg t (some sizes) h some_bytes = λ e.
    some_bytes (omega (arith, pending-fill_cells l.server_num sizes t.data_size_in_window, h, e))

open_from-HandsOut :
    (l : Layout) (t : Trace)
    → t.layout ≡ some l
    → Striped t l
    → t.unprocessed_size ≢ 0
    → HandsOut (after_open (open_from (some l) t))
unfolding open_from after_open
open_from-HandsOut l t e striped more = elim (Bool-cases (t.unprocessed_size == 0)) [
  | inl done ↦ absurd (more ((==_iff t.unprocessed_size 0).0 done))
  | inr left ↦ rw left (
      get_next-HandsOut l _ ((fill_window-SamePlace t l _ _).3 ∙ e) (
        fill_window-pending l (next_size t) t _ (shares-AddsUp t l striped (next_size t))
          (next_size-positive t more)))
]

-- What a trace may hand out: an amount in the window, or a further window when no answer is awaited.
abbrev pub HasWork : Trace → Layout → Type 0
HasWork t l =
    (pending l.server_num t.data_size_in_window ≢ 0)
    ⊎ ((any_sent t.data_size_in_window l.server_num ≡ false) × (t.unprocessed_size ≢ 0))

move_on-HandsOut :
    (l : Layout) (t : Trace)
    → t.layout ≡ some l
    → Striped t l
    → t.unprocessed_size ≢ 0
    → any_sent t.data_size_in_window l.server_num ≡ false
    → HandsOut (move_on l t)
unfolding move_on open_new_window
move_on-HandsOut l t e striped more idle = rw idle (
    subst (λ o. HandsOut (after_open (open_from o t))) (sym e)
      (open_from-HandsOut l t e striped more))

-- The search of the window decides whether the trace moves on.
or_move_on-HandsOut :
    (l : Layout) (t : Trace) (o : Option (ℕ × ℕ))
    → t.layout ≡ some l
    → Striped t l
    → FirstUnsent t.data_size_in_window 0 l.server_num o
    → HasWork t l
    → HandsOut (or_move_on l (send_found l o t))
unfolding or_move_on send_found
or_move_on-HandsOut l t (some (i, k)) e striped h work = tt
or_move_on-HandsOut l t none e striped h (inr (idle, more)) =
    move_on-HandsOut l t e striped more idle
or_move_on-HandsOut l t none e striped h (inl some_bytes) =
    absurd (send_found-HandsOut l t none h some_bytes)

sized-HandsOut :
    (t : Trace) (l : Layout) (w : ℕ)
    → Striped t l
    → HasWork t l
    → (s : ℕ × Layout) → s ≡ (suc w, l)
    → let t' = record t { layout = some s.1 } in
      HandsOut (if s.0 == 0 then (none, t') else or_move_on s.1 (get_next_g_packet_from_window t'))
unfolding get_next_g_packet_from_window get_next_from
sized-HandsOut t l w striped work s e =
    subst
      (λ r. HandsOut (
        if r.0 == 0
        then (none, record t { layout = some r.1 })
        else or_move_on r.1 (get_next_g_packet_from_window (record t { layout = some r.1 }))))
      (sym e)
      (rw (set w) (
        or_move_on-HandsOut l (record t { layout = some l }) _ refl striped
          (first_unsent-FirstUnsent t.data_size_in_window 0 l.server_num) work))
  where
    set : (w : ℕ) → (suc w == 0) ≡ false
    set w = ground arith

-- `nextgPacket` never refuses work that it can do: a trace whose layout is striped and has a window
-- size hands out a packet, where the window has an amount to send, or no answer is awaited and bytes
-- are left for a further window.
pub next_g_packet-HandsOut :
    (t : Trace) (l : Layout) (w : ℕ)
    → t.layout ≡ some l
    → l.window_size ≡ some (suc w)
    → Striped t l
    → HasWork t l
    → HandsOut (next_g_packet t)
unfolding next_g_packet next_from
next_g_packet-HandsOut t l w e known striped work =
    subst (λ o. HandsOut (next_from o t)) (sym e)
      (sized-HandsOut t l w striped work (get_window_size l) (known_window_size l (suc w) known))
