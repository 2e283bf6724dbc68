-- ===== src/Client/Send.antt =====
-- `generateDataPacketRequests` (omnetpp/client/pfsclient/strategy/PVFS2ClientStrategy.cc): the loop
-- that sends the packets of a trace ends.
use pfssim.Base.{
  ℕ, zero, suc, ◌+◌, ◌≤◌, ◌<◌, ◌≡◌, refl, sym, ap, subst, ◌∙◌, inl, inr, Bool, true, false, Option,
  none, some, List, Bool-cases, ◌==◌, if◌then◌else◌, arith,
}
use pfssim.Packet.{GPacket}
use pfssim.Layout.{Layout, size_of, calculate_window_size, get_window_size}
use pfssim.Trace.{
  Trace, Slot, unsent, first_unsent, any_sent, send_found, send_slot, get_next_from,
  get_next_g_packet_from_window, after_open, move_on, or_move_on, next_from, next_g_packet,
}
use pfssim.Trace.Place.{open_new_window-SamePlace}
use pfssim.Trace.Window.{FirstUnsent, first_unsent-FirstUnsent}
use pfssim.Client.{send_all, collect}
use pfssim.Client.Ids.{next_request_id}
use pfssim.Client.Cells.{is_unsent, unsent_cells, unsent_cells-le, unsent_cells-sent, any_sent-sent}

-- What is left after a packet: a cell awaits its answer, and fewer than `m` cells are to be sent; the
-- number of servers stays.
record IsSending (n m : ℕ) (t : Trace) : Type 0 where
  l : Layout
  has_layout : t.layout ≡ some l
  servers : l.server_num ≡ n
  awaits : any_sent t.data_size_in_window n ≡ true
  fewer : unsent_cells n t.data_size_in_window + 1 ≤ m

abbrev Shrinks : ℕ → ℕ → Option GPacket × Trace → Type 0
Shrinks n m (none, t) = Unit
Shrinks n m (some p, t) = IsSending n m t

found_unsent : (c : Slot) (k : ℕ) → c ≡ unsent k → 0 < k → is_unsent c ≡ 1
found_unsent c k e h = ap is_unsent e ∙ ground arith

send_found-Shrinks :
    (l : Layout) (m : ℕ) (t : Trace) (o : Option (ℕ × ℕ))
    → t.layout ≡ some l
    → FirstUnsent t.data_size_in_window 0 l.server_num o
    → unsent_cells l.server_num t.data_size_in_window ≤ m
    → Shrinks l.server_num m (send_found l o t)
unfolding send_found send_slot
send_found-Shrinks l m t none e h le = tt
send_found-Shrinks l m t (some (i, k)) e (below, cell, more) le = record {
  l = l;
  has_layout = e;
  servers = refl;
  awaits = any_sent-sent l.server_num t.data_size_in_window i (omega arith);
  fewer = omega (
    arith,
    unsent_cells-sent l.server_num t.data_size_in_window i (omega arith)
        (found_unsent (t.data_size_in_window i) k cell more),
  );
}

get_next-Shrinks :
    (l : Layout) (m : ℕ) (t : Trace)
    → t.layout ≡ some l
    → unsent_cells l.server_num t.data_size_in_window ≤ m
    → Shrinks l.server_num m (get_next_g_packet_from_window t)
unfolding get_next_g_packet_from_window get_next_from
get_next-Shrinks l m t e le =
    subst (λ o. Shrinks l.server_num m (get_next_from o t)) (sym e)
      (send_found-Shrinks l m t _ e (first_unsent-FirstUnsent _ _ _) le)

after_open-Shrinks :
    (l : Layout) (o : Bool) (t : Trace)
    → t.layout ≡ some l
    → Shrinks l.server_num l.server_num (after_open (o, t))
unfolding after_open
after_open-Shrinks l false t e = tt
after_open-Shrinks l true t e = get_next-Shrinks l l.server_num t e (unsent_cells-le _ _)

-- How many packets a trace may still hand out before it has to wait.
abbrev Bounded : ℕ → ℕ → Trace → Type 0
Bounded n m t =
    (any_sent t.data_size_in_window n ≡ true → unsent_cells n t.data_size_in_window ≤ m)
    × (any_sent t.data_size_in_window n ≡ false → n ≤ m)

weaken : (n m k : ℕ) (r : Option GPacket × Trace) → k ≤ m → Shrinks n k r → Shrinks n m r
weaken n m k (none, t) h s = tt
weaken n m k (some p, t) h s = record {
  l = s.l;
  has_layout = s.has_layout;
  servers = s.servers;
  awaits = s.awaits;
  fewer = omega (arith, s.fewer);
}

move_on-Shrinks :
    (l : Layout) (m : ℕ) (t : Trace)
    → t.layout ≡ some l
    → Bounded l.server_num m t
    → Shrinks l.server_num m (move_on l t)
unfolding move_on
move_on-Shrinks l m t e b = elim (Bool-cases (any_sent t.data_size_in_window l.server_num)) [
  | inl waits ↦ rw waits tt
  | inr idle ↦ rw idle (
      weaken l.server_num m l.server_num _ (b.1 idle)
        (after_open-Shrinks l _ _ ((open_new_window-SamePlace t).3 ∙ e)))
]

-- A search that finds no packet leaves the trace.
abbrev Kept : Trace → Option GPacket × Trace → Type 0
Kept t (none, t') = t ≡ t'
Kept t (some p, t') = Unit

get_next-Kept :
    (l : Layout) (t : Trace) → t.layout ≡ some l → Kept t (get_next_g_packet_from_window t)
unfolding get_next_g_packet_from_window get_next_from send_found
get_next-Kept l t e =
    subst (λ o. Kept t (get_next_from o t)) (sym e)
      (kept (first_unsent t.data_size_in_window 0 l.server_num))
  where
    kept : (o : Option (ℕ × ℕ)) → Kept t (send_found l o t)
    kept none = refl
    kept (some (i, k)) = tt

or_move_on-Shrinks :
    (l : Layout) (m : ℕ) (t : Trace) (o : Option GPacket) (t' : Trace)
    → t.layout ≡ some l
    → Bounded l.server_num m t
    → Kept t (o, t')
    → Shrinks l.server_num m (o, t')
    → Shrinks l.server_num m (or_move_on l (o, t'))
unfolding or_move_on
or_move_on-Shrinks l m t none t' e b k s =
    subst (λ u. Shrinks l.server_num m (move_on l u)) k (move_on-Shrinks l m t e b)
or_move_on-Shrinks l m t (some p) t' e b k s = s

unsent_cells-Bounded :
    (n m : ℕ) (t : Trace) → Bounded n m t → unsent_cells n t.data_size_in_window ≤ m
unsent_cells-Bounded n m t b = elim (Bool-cases (any_sent t.data_size_in_window n)) [
  | inl waits ↦ b.0 waits
  | inr idle ↦ omega (arith, b.1 idle, unsent_cells-le n t.data_size_in_window)
]

sized-Shrinks :
    (l : Layout) (m w : ℕ) (t : Trace)
    → t.layout ≡ some l
    → Bounded l.server_num m t
    → Shrinks l.server_num m
        (if w == 0 then (none, t) else or_move_on l (get_next_g_packet_from_window t))
sized-Shrinks l m w t e b = elim (Bool-cases (w == 0)) [
  | inl unset ↦ rw unset tt
  | inr set ↦ rw set (
      or_move_on-Shrinks l m t _ _ e b (get_next-Kept l t e)
        (get_next-Shrinks l m t e (unsent_cells-Bounded l.server_num m t b)))
]

size_of-server_num : (l : Layout) (o : Option ℕ) → (size_of o l).1.server_num ≡ l.server_num
unfolding size_of calculate_window_size
size_of-server_num l none = refl
size_of-server_num l (some w) = refl

next_g_packet-Shrinks :
    (l : Layout) (m : ℕ) (t : Trace)
    → t.layout ≡ some l
    → Bounded l.server_num m t
    → Shrinks l.server_num m (next_g_packet t)
unfolding next_g_packet next_from get_window_size
next_g_packet-Shrinks l m t e b =
    subst (λ o. Shrinks l.server_num m (next_from o t)) (sym e)
      (subst (λ n. Shrinks n m (next_from (some l) t)) same
        (sized-Shrinks sized.1 m sized.0 (record t { layout = some sized.1 }) refl
          (subst (λ n. Bounded n m t) (sym same) b)))
  where
    sized : ℕ × Layout
    sized = size_of l.window_size l

    same : sized.1.server_num ≡ l.server_num
    same = size_of-server_num l l.window_size

-- A loop that ends, with its packets.
abbrev pub Ends : Option (List GPacket × ℕ × Trace) → Type 0
Ends none = ⊥
Ends (some r) = Unit

collect-Ends :
    (my_id id : ℕ) (p : GPacket) (t : Trace) (rest : Option (List GPacket × ℕ × Trace))
    → Ends rest
    → Ends (collect my_id id (some p) t rest)
unfolding collect
collect-Ends my_id id p t none h = h
collect-Ends my_id id p t (some r) h = tt

module _ (my_id : ℕ) where
  -- A round of the loop, where the later rounds end.
  round-Ends :
      (fuel id n m : ℕ) (r : Option GPacket × Trace)
      → m ≤ fuel
      → Shrinks n m r
      → ((t : Trace) (l : Layout) (k : ℕ)
          → t.layout ≡ some l
          → Bounded l.server_num k t
          → k < fuel
          → Ends (send_all fuel my_id (next_request_id my_id id) t))
      → Ends (collect my_id id r.0 r.1 (send_all fuel my_id (next_request_id my_id id) r.1))
  unfolding collect
  round-Ends fuel id n m (none, t) h s ih = tt
  round-Ends fuel id n m (some p, t) h s ih = collect-Ends my_id id p t _ (
      ih t s.l (unsent_cells n t.data_size_in_window) s.has_layout
        (subst (λ k. Bounded k (unsent_cells n t.data_size_in_window) t) (sym s.servers)
          ((λ w. omega arith), λ idle. absurd (ground (arith, idle, s.awaits))))
        (omega (arith, s.fewer)))

  send_from-Ends :
      (fuel id : ℕ) (t : Trace) (l : Layout) (m : ℕ)
      → t.layout ≡ some l
      → Bounded l.server_num m t
      → m < fuel
      → Ends (send_all fuel my_id id t)
  unfolding send_all
  send_from-Ends zero id t l m e b h = absurd (omega arith)
  send_from-Ends (suc fuel) id t l m e b h =
      round-Ends fuel id l.server_num m (next_g_packet t) (omega arith)
        (next_g_packet-Shrinks l m t e b)
        (λ t' l' k e' b' h'. send_from-Ends fuel (next_request_id my_id id) t' l' k e' b' h')

-- The loop ends after at most one packet for each server.
pub send_all-Ends :
    (my_id id : ℕ) (t : Trace) (l : Layout)
    → t.layout ≡ some l
    → Ends (send_all (suc l.server_num) my_id id t)
send_all-Ends my_id id t l e =
    send_from-Ends my_id (suc l.server_num) id t l l.server_num e
      ((λ w. unsent_cells-le l.server_num t.data_size_in_window), λ idle. omega arith) (omega arith)
