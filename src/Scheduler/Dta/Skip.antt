-- ===== src/Scheduler/Dta/Skip.antt =====
-- The search for the first packet of a queue that waits (omnetpp/scheduler/DTA/DTA.cc).
use pfssim.Base.{
  ℕ, zero, suc, ◌<◌, ◌≡◌, refl, inl, inr, true, Option, none, some, List, [], ◌∷◌, length, negsuc,
  if◌then◌else◌, Bool-cases, Option-cases, front?, remove_by, ==_refl, arith,
}
use pfssim.Packet.{GPacket}
use pfssim.Scheduler.Fifo as Q
use pfssim.Scheduler.Fifo.{Fifo}
use pfssim.Scheduler.Dta.Inner.{Table, has, take_out, skip, first_waiting}

-- The inner queues have no limit, and nothing is outstanding in them.
abbrev pub IsInner : Fifo GPacket → Type 0
IsInner q = (q.degree ≡ negsuc 0) × (q.os_q ≡ [])

-- Without the packets at the front that do not wait.
unfoldable pub from_waiting : Table GPacket → List GPacket → List GPacket
from_waiting m [] = []
from_waiting m (p ∷ ps) = if has m p.id then p ∷ ps else from_waiting m ps

take_out-rest :
    (p : GPacket) (ps : List GPacket)
    → take_out p (record { degree = negsuc 0; wait_q = p ∷ ps; os_q = [] })
      ≡ record { degree = negsuc 0; wait_q = ps; os_q = [] }
unfolding take_out Q.dispatch_next Q.pop_os_q remove_by
take_out-rest p ps = rw (==_refl p.id) refl

skip-from_waiting :
    (fuel : ℕ) (m : Table GPacket) (ps : List GPacket)
    → length ps < fuel
    → skip fuel m (record { degree = negsuc 0; wait_q = ps; os_q = [] })
      ≡ some (
        front? (from_waiting m ps),
        record { degree = negsuc 0; wait_q = from_waiting m ps; os_q = [] },
      )
unfolding skip from_waiting Q.see_wait_q_next
skip-from_waiting zero m ps h = absurd (omega arith)
skip-from_waiting (suc fuel) m [] h = refl
skip-from_waiting (suc fuel) m (p ∷ ps) h = elim (Bool-cases (has m p.id)) [
  | inl e ↦ rw e refl
  | inr e ↦ rw (e, take_out-rest p ps) (skip-from_waiting fuel m ps (omega (arith, h)))
]

-- The search in an inner queue ends at the first packet that waits.
pub first_waiting-from_waiting :
    (m : Table GPacket) (q : Fifo GPacket)
    → IsInner q
    → first_waiting m q
      ≡ some (front? (from_waiting m q.wait_q), record q { wait_q = from_waiting m q.wait_q })
unfolding first_waiting
first_waiting-from_waiting m q h =
    rw (h.0, h.1) (skip-from_waiting (suc (length q.wait_q)) m q.wait_q (omega arith))

abbrev pub Waits : Table GPacket → Option (Option GPacket × Fifo GPacket) → Type 0
Waits m none = Unit
Waits m (some (none, q)) = Unit
Waits m (some (some p, q)) = has m p.id ≡ true

skip_step :
    (fuel : ℕ) (m : Table GPacket) (q : Fifo GPacket) (o : Option GPacket)
    → Q.see_wait_q_next q ≡ o
    → skip (suc fuel) m q ≡ elim o [
      | none ↦ some (none, q)
      | some p ↦ if has m p.id then some (some p, q) else skip fuel m (take_out p q)
    ]
unfolding skip
skip_step fuel m q o e = rw (← e) refl

skip-Waits : (fuel : ℕ) (m : Table GPacket) (q : Fifo GPacket) → Waits m (skip fuel m q)
skip-Waits zero m q = unfold skip in tt
skip-Waits (suc fuel) m q = elim (Option-cases (Q.see_wait_q_next q)) [
  | inl e ↦ rw (skip_step fuel m q none e) tt
  | inr (p, e) ↦ elim (Bool-cases (has m p.id)) [
    | inl w ↦ rw (skip_step fuel m q (some p) e, w) w
    | inr w ↦ rw (skip_step fuel m q (some p) e, w) (skip-Waits fuel m (take_out p q))
  ]
]

pub first_waiting-Waits : (m : Table GPacket) (q : Fifo GPacket) → Waits m (first_waiting m q)
unfolding first_waiting
first_waiting-Waits m q = skip-Waits (suc (length q.wait_q)) m q
