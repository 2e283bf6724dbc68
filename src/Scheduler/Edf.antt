-- ===== src/Scheduler/Edf.antt =====
-- omnetpp/scheduler/EDF/EDF.cc: `FIFO` with its wait queue kept in the order of the deadlines.
pub mod Sorted
pub mod Laws
mod Tests
use pfssim.Base.{ℕ, suc, ◌+◌, ℤ, List, [], ◌∷◌, Option, Arith, if◌then◌else◌}
use pfssim.Packet.{BPacket}
use pfssim.Scheduler.IQueue.{IQueue}
use pfssim.Scheduler.Fifo
use pfssim.Scheduler.Fifo.{Fifo}

-- The fields that `EDF` adds: what `processParameters` or the second constructor sets.
pub record Edf (F : Arith) (A : Type 0) : Type 0 where
  pub queue : Fifo A
  pub qos_delay : ℕ → F.Double

-- The loop of `pushWaitQ` over a key: before the first entry with a later key.
pub insert_by : (F : Arith) {A : Type 0} → (A → F.Double) → A → List A → List A
insert_by F key x [] = x ∷ []
insert_by F key x (y ∷ ys) = if F.lt (key x) (key y) then x ∷ y ∷ ys else y ∷ insert_by F key x ys

-- The loop of `getNumReqsInWaitQWithinDeadline`, which stops at the first entry that is not early.
unfoldable pub count_early : (F : Arith) {A : Type 0} → (A → F.Double) → F.Double → List A → ℕ
count_early F key d [] = 0
count_early F key d (y ∷ ys) =
    let rest = count_early F key d ys in if F.lt (key y) d then suc rest else 0

module _ (F : Arith) {A : Type 0} (b : BPacket A) (risetime : A → F.Double) where
  pub init : ℤ → (ℕ → F.Double) → Edf F A
  init deg delay = record { queue = Fifo.init deg; qos_delay = delay }

  -- `getRisetime() + QoSDelay[getApp()]`
  abbrev pub deadline : Edf F A → A → F.Double
  deadline q job = F.add (risetime job) (q.qos_delay (b.app job))

  unfoldable pub push_wait_q : A → Edf F A → Edf F A
  unfolding insert_by
  push_wait_q job q = record q { queue = record q.queue { wait_q = placed } }
    where
      placed : List A
      placed = insert_by F (deadline q) job q.queue.wait_q

  unfoldable pub get_num_reqs_in_wait_q_within_deadline : F.Double → Edf F A → ℕ
  unfolding count_early
  get_num_reqs_in_wait_q_within_deadline d q = count_early F (deadline q) d q.queue.wait_q

  -- The methods that `EDF` inherits.
  unfoldable pub dispatch_next : Edf F A → Option A × Edf F A
  dispatch_next q = let (r, f) = Fifo.dispatch_next q.queue in (r, record q { queue = f })

  pub pop_os_q : ℕ → Edf F A → Option A × Edf F A
  pop_os_q id q = let (r, f) = Fifo.pop_os_q b id q.queue in (r, record q { queue = f })

  abbrev pub edf_queue : IQueue A
  edf_queue = record {
    State = Edf F A;
    push_wait_q = push_wait_q;
    dispatch_next = dispatch_next;
    pop_os_q = pop_os_q;
    waiting = λ q. q.queue.wait_q;
    outstanding = λ q. q.queue.os_q;
  }
