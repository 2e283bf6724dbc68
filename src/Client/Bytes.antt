-- ===== src/Client/Bytes.antt =====
-- What the loop of `generateDataPacketRequests` sends for a trace
-- (omnetpp/client/pfsclient/strategy/PVFS2ClientStrategy.cc).
use pfssim.Base.{ℕ, zero, suc, ◌+◌, sym, subst, Option, none, some, List, arith}
use pfssim.Packet.{GPacket}
use pfssim.Trace.{Trace, next_g_packet}
use pfssim.Trace.Run.{Carries, bytes_of, next_g_packet-Carries}
use pfssim.Trace.Answers.{bytes}
use pfssim.Client.{send_all, collect, rounds}
use pfssim.Client.Ids.{next_request_id}
use pfssim.Client.Send.{Ends, send_all-Ends}

abbrev Conserves : ℕ → ℕ → Option (List GPacket × ℕ × Trace) → Type 0
Conserves total out none = Unit
Conserves total out (some (ps, id, t)) = Carries total (bytes ps + out) t

-- The loop ends, and what it sends is taken from what the trace had to hand out.
abbrev pub SendsAll : ℕ → ℕ → Option (List GPacket × ℕ × Trace) → Type 0
SendsAll total out none = ⊥
SendsAll total out (some (ps, id, t)) = Carries total (bytes ps + out) t

collect-Conserves :
    (total out my_id id : ℕ) (o : Option GPacket) (t : Trace)
    (rest : Option (List GPacket × ℕ × Trace))
    → Carries total (bytes_of o + out) t
    → Conserves total (bytes_of o + out) rest
    → Conserves total out (collect my_id id o t rest)
unfolding collect
collect-Conserves total out my_id id none t rest c h = c
collect-Conserves total out my_id id (some p) t none c h = tt
collect-Conserves total out my_id id (some p) t (some (ps, id', t')) c h =
    subst (λ n. Carries total n t') (omega arith) h

send_all-Conserves :
    (fuel total out my_id id : ℕ) (t : Trace)
    → Carries total out t
    → Conserves total out (send_all fuel my_id id t)
unfolding send_all
send_all-Conserves zero total out my_id id t c = tt
send_all-Conserves (suc fuel) total out my_id id t c =
    let c' = next_g_packet-Carries total out t c in
    collect-Conserves total out my_id id (next_g_packet t).0 (next_g_packet t).1 _ c'
      (send_all-Conserves fuel total _ my_id (next_request_id my_id id) (next_g_packet t).1 c')

both :
    (total out : ℕ) (r : Option (List GPacket × ℕ × Trace))
    → Ends r
    → Conserves total out r
    → SendsAll total out r
both total out none e c = e
both total out (some (ps, id, t)) e c = c

-- For a trace that has a layout and whose bytes are accounted for, the loop that sends its packets
-- ends within one round more than it has servers, and the bytes of the packets that it sends, with
-- those sent before, those left in the window and those for later windows, make up the request.
pub send_all-SendsAll :
    (total out my_id id : ℕ) (t : Trace)
    → Carries total out t
    → SendsAll total out (send_all (rounds t.layout) my_id id t)
send_all-SendsAll total out my_id id t (l, b) =
    both total out _
      (subst (λ o. Ends (send_all (rounds o) my_id id t)) (sym b.0)
        (send_all-Ends my_id id t l b.0))
      (send_all-Conserves (rounds t.layout) total out my_id id t (l, b))
