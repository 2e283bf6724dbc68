-- ===== src/Trace/Answers.antt =====
-- The answers to a trace (omnetpp/trace/WindowBasedTrace.cc), and a whole run of it.
use pfssim.Base.{
  ℕ, ◌+◌, ◌<◌, ◌≡◌, refl, sym, ap, subst, ◌∙◌, Bool, true, false, Option, none, some, List, [], ◌∷◌,
  ◌++◌, to_list, arith, ==_iff, if◌then◌else◌,
}
use mathlib.Core.Option.{some-injective}
use pfssim.Packet.{GPacket}
use pfssim.Layout.{Layout, find_server_index}
use pfssim.Layout.Laws.{find_server_index-Found, Found}
use pfssim.Trace.{
  Trace, received, sent, Status, need_wait, more_to_send, all_done, next_g_packet, mark_received,
  finish_at, finish_from, finished_g_packet,
}
use pfssim.Trace.Window.{amount, pending-update, pending-any_open}
use pfssim.Trace.Run.{Balanced, Carries, bytes_of, next_g_packet-Carries}

-- `p` comes from a server whose cell awaits its answer.
abbrev pub Awaits : GPacket → Trace → Type 0
Awaits p t =
    (l : Layout) × (i : ℕ) × (t.layout ≡ some l)
    × (find_server_index p.ds_id l ≡ some i)
    × (t.data_size_in_window i ≡ sent)

-- The runs of a trace: it is asked for packets, and its servers answer, in any order. The list holds
-- the packets that it handed out, the latest first.
pub data Reaches (t0 : Trace) : List GPacket → Trace → Type 0 where
  begun : Reaches t0 [] t0
  asked :
      {ps : List GPacket} {t : Trace}
      → Reaches t0 ps t
      → Reaches t0 (to_list (next_g_packet t).0 ++ ps) (next_g_packet t).1
  answered :
      {ps : List GPacket} {t t' : Trace} {status : Status}
      → Reaches t0 ps t
      → (p : GPacket) → Awaits p t
      → finished_g_packet p t ≡ some (status, t')
      → Reaches t0 ps t'

abbrev pub bytes : List GPacket → ℕ
bytes [] = 0
bytes (p ∷ ps) = p.size + bytes ps

bytes-to_list :
    (o : Option GPacket) (ps : List GPacket) → bytes (to_list o ++ ps) ≡ bytes_of o + bytes ps
bytes-to_list none ps = omega arith
bytes-to_list (some p) ps = refl

found_lt : (l : Layout) (id i : ℕ) → find_server_index id l ≡ some i → i < l.server_num
found_lt l id i e =
    omega
      (arith, (subst (Found l.server_list id 0 l.server_num) e (find_server_index-Found id l)).1)

mark_received-Balanced :
    (l : Layout) (total out i : ℕ) (t : Trace)
    → i < l.server_num
    → t.data_size_in_window i ≡ sent
    → Balanced l total out t
    → Balanced l total out (mark_received l i t).1
unfolding mark_received
mark_received-Balanced l total out i t h e (has, striped, bytes) = (
  has,
  striped,
  omega (arith, pending-update l.server_num t.data_size_in_window i received h, ap amount e, bytes),
)

-- What is answered where the layout and the server's index are known.
finished-some :
    (l : Layout) (i : ℕ) (p : GPacket) (t : Trace)
    → t.layout ≡ some l
    → find_server_index p.ds_id l ≡ some i
    → finished_g_packet p t ≡ some (mark_received l i t)
unfolding finished_g_packet finish_from finish_at
finished-some l i p t e f = ap (λ o. finish_from o p t) e ∙ ap (λ o. finish_at l o t) f

done-closed :
    (a b : Bool)
    → (if a then need_wait else if b then all_done else more_to_send) ≡ all_done
    → (a ≡ false) × (b ≡ true)
done-closed true b e = ground (arith, e)
done-closed false true e = (refl, refl)
done-closed false false e = ground (arith, e)

-- When the last answer leaves nothing open, all is handed out.
all_done-sent :
    (l : Layout) (total out i : ℕ) (t : Trace)
    → Balanced l total out (mark_received l i t).1
    → (mark_received l i t).0 ≡ all_done
    → out ≡ total
unfolding mark_received
all_done-sent l total out i t (has, striped, bytes) e = omega (
  arith,
  bytes,
  pending-any_open l.server_num _ (done-closed _ _ e).0,
  (==_iff t.unprocessed_size 0).0 (done-closed _ _ e).1,
)

-- An awaited answer, with the layout and the cell that it is for.
record Answered (total out : ℕ) (status : Status) (t t' : Trace) : Type 0 where
  l : Layout
  i : ℕ
  marked : mark_received l i t ≡ (status, t')
  balanced : Balanced l total out t'

finished_g_packet-Answered :
    (total out : ℕ) (p : GPacket) (t t' : Trace) (status : Status)
    → Awaits p t
    → finished_g_packet p t ≡ some (status, t')
    → Carries total out t
    → Answered total out status t t'
finished_g_packet-Answered total out p t t' status (l, i, e, f, cell) fin (l', b) = record {
  l = l;
  i = i;
  marked = marked;
  balanced =
      subst (λ r. Balanced l total out r.1) marked
        (mark_received-Balanced l total out i t (found_lt l p.ds_id i f) cell
          (subst (λ x. Balanced x total out t) (some-injective l' l (sym b.0 ∙ e)) b));
}
  where
    marked : mark_received l i t ≡ (status, t')
    marked = some-injective _ _ (sym (finished-some l i p t e f) ∙ fin)

-- Over every run of a trace, whatever the order of the answers: the bytes of the packets that were
-- handed out, those of the current window and those for later windows make up the request, where
-- this holds at the start.
pub Reaches-Carries :
    (total : ℕ) (t0 : Trace)
    → Carries total 0 t0
    → (ps : List GPacket) (t : Trace) → Reaches t0 ps t
    → Carries total (bytes ps) t
Reaches-Carries total t0 c _ _ begun = c
Reaches-Carries total t0 c _ _ (asked {ps} {t} run) =
    subst (λ n. Carries total n (next_g_packet t).1) (sym (bytes-to_list (next_g_packet t).0 ps))
      (next_g_packet-Carries total (bytes ps) t (Reaches-Carries total t0 c ps t run))
Reaches-Carries total t0 c ps t' (answered {t = t} {status = status} run p w fin) =
    let a =
      finished_g_packet-Answered total (bytes ps) p t t' status w fin
        (Reaches-Carries total t0 c ps t run) in
    (a.l, a.balanced)

-- When a trace answers ALL_DONE, the packets that it handed out carry as many bytes as the request
-- has: over every run of a trace that has a layout, starts with nothing handed out, and whose
-- servers answer only what awaits an answer.
pub all_done-bytes :
    (total : ℕ) (t0 : Trace)
    → Carries total 0 t0
    → (ps : List GPacket) (t t' : Trace) → Reaches t0 ps t
    → (p : GPacket) → Awaits p t
    → finished_g_packet p t ≡ some (all_done, t')
    → bytes ps ≡ total
all_done-bytes total t0 c ps t t' run p w fin =
    let a =
      finished_g_packet-Answered total (bytes ps) p t t' all_done w fin
        (Reaches-Carries total t0 c ps t run) in
    all_done-sent a.l total (bytes ps) a.i t
      (subst (λ r. Balanced a.l total (bytes ps) r.1) (sym a.marked) a.balanced)
      (ap (λ r. r.0) a.marked)
