-- ===== src/Scheduler/Dta/Inner.antt =====
-- The queues of one server (omnetpp/scheduler/DTA/DTAEDF.cc, DTAFIFO.cc), and the maps by which they are searched
-- and refined (DTA.cc).
use pfssim.Base.{
  ℕ, zero, suc, Bool, true, false, Option, none, some, List, [], ◌∷◌, if◌then◌else◌, update, length,
}
use pfssim.Packet.{GPacket, g_packet}
use pfssim.Scheduler.Fifo as Q
use pfssim.Scheduler.Fifo.{Fifo}

-- `map` with an ID for its key.
abbrev pub Table : Type 0 → Type 0
Table A = ℕ → Option A

abbrev pub has : {A : Type 0} → Table A → ℕ → Bool
has m id = elim (m id) [ none ↦ false | some a ↦ true ]

-- `insert`, which leaves an entry that is there.
abbrev pub insert : {A : Type 0} → ℕ → A → Table A → Table A
insert id a m = if has m id then m else update m id (some a)

abbrev pub erase : {A : Type 0} → ℕ → Table A → Table A
erase id m = update m id none

-- One round of `refineWaitQ`: without the first packet that is not in the map, if there is one.
abbrev pub beside : GPacket → Option (List GPacket) → Option (List GPacket)
beside p none = none
beside p (some ps) = some (p ∷ ps)

unfoldable pub erase_first : Table GPacket → List GPacket → Option (List GPacket)
erase_first m [] = none
erase_first m (p ∷ ps) = if has m p.id then beside p (erase_first m ps) else some ps

-- `while(d == true)` on fuel; `none` means that the fuel ran out.
unfoldable pub refine_wait_q : ℕ → Table GPacket → List GPacket → Option (List GPacket)
unfolding erase_first
refine_wait_q zero m ps = none
refine_wait_q (suc fuel) m ps = elim (erase_first m ps) [
  | none ↦ some ps
  | some qs ↦ refine_wait_q fuel m qs
]

abbrev pub with_wait_q : Fifo GPacket → Option (List GPacket) → Option (Fifo GPacket)
with_wait_q q none = none
with_wait_q q (some ps) = some (record q { wait_q = ps })

-- The fuel is shown to be enough.
unfoldable pub refine : Table GPacket → Fifo GPacket → Option (Fifo GPacket)
unfolding refine_wait_q
refine m q = with_wait_q q (refine_wait_q (suc (length q.wait_q)) m q.wait_q)

-- `dispatchNext` and `popOsQ` of a packet, one after the other.
unfoldable pub take_out : GPacket → Fifo GPacket → Fifo GPacket
take_out p q = (Q.pop_os_q g_packet p.id (Q.dispatch_next q).1).1

-- The loop to the first waiting packet of a queue, on fuel: the packet, if there is one, and the queue from it on.
unfoldable pub skip : ℕ → Table GPacket → Fifo GPacket → Option (Option GPacket × Fifo GPacket)
unfolding take_out
skip zero m q = none
skip (suc fuel) m q = elim (Q.see_wait_q_next q) [
  | none ↦ some (none, q)
  | some p ↦ if has m p.id then some (some p, q) else skip fuel m (take_out p q)
]

unfoldable pub first_waiting : Table GPacket → Fifo GPacket → Option (Option GPacket × Fifo GPacket)
unfolding skip
first_waiting m q = skip (suc (length q.wait_q)) m q
