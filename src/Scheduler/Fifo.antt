-- ===== src/Scheduler/Fifo.antt =====
-- omnetpp/scheduler/FIFO/FIFO.cc: a wait queue and a queue of outstanding packets.
pub mod Laws
pub mod Order
pub mod Drain
mod Tests
use pfssim.Base.{
  ℕ, ◌≡◌, ℤ, pos, Bool, true, false, ◌&&◌, not, List, [], ◌∷◌, ◌++◌, Option, none, some, length,
  is_nil, front?, find_by, remove_by, reaches, is_nonneg, ◌==◌, if◌then◌else◌,
}
use pfssim.Packet.{BPacket}
use pfssim.Scheduler.IQueue.{IQueue}

-- `FIFO` with the fields of `IQueue` that it reads. A list's head is its front.
pub record Fifo (A : Type 0) : Type 0 where
  pub degree : ℤ
  pub wait_q : List A
  pub os_q : List A

module _ {A : Type 0} where
  pub init : ℤ → Fifo A
  init deg = record { degree = deg; wait_q = []; os_q = [] }

  unfoldable pub see_wait_q_next : Fifo A → Option A
  see_wait_q_next q = front? q.wait_q

  pub see_os_q_next : Fifo A → Option A
  see_os_q_next q = front? q.os_q

  unfoldable pub push_wait_q : A → Fifo A → Fifo A
  push_wait_q job q = record q { wait_q = q.wait_q ++ job ∷ [] }

  pub push_os_q : A → Fifo A → Fifo A
  push_os_q job q = record q { os_q = q.os_q ++ job ∷ [] }

  -- The guard that stops a dispatch: a negative degree does not limit.
  abbrev pub is_full : Fifo A → Bool
  is_full q = reaches (length q.os_q) q.degree && is_nonneg q.degree

  -- Moves the front of a wait queue that is not empty.
  dispatch_front : List A → Fifo A → Option A × Fifo A
  dispatch_front [] q = (none, q)
  dispatch_front (job ∷ rest) q =
      if is_full q
      then (none, q)
      else (some job, record q { wait_q = rest; os_q = q.os_q ++ job ∷ [] })

  unfoldable pub dispatch_next : Fifo A → Option A × Fifo A
  unfolding dispatch_front
  dispatch_next q = dispatch_front q.wait_q q

  -- `popOsQ()` reads the front without a test; `none` stands for its undefined behaviour.
  pop_front : List A → Fifo A → Option (A × Fifo A)
  pop_front [] q = none
  pop_front (job ∷ rest) q = some (job, record q { os_q = rest })

  pub pop_os_q_front : Fifo A → Option (A × Fifo A)
  unfolding pop_front
  pop_os_q_front q = pop_front q.os_q q

  pub get_wait_q_size : Fifo A → ℕ
  get_wait_q_size q = length q.wait_q

  pub get_os_q_size : Fifo A → ℕ
  get_os_q_size q = length q.os_q

  pub wait_q_is_empty : Fifo A → Bool
  wait_q_is_empty q = is_nil q.wait_q

  pub os_q_is_empty : Fifo A → Bool
  os_q_is_empty q = is_nil q.os_q

  pub is_empty : Fifo A → Bool
  is_empty q = is_nil q.wait_q && is_nil q.os_q

module _ {A : Type 0} (b : BPacket A) where
  -- The tests of the two searches.
  abbrev pub has_id : ℕ → A → Bool
  has_id id job = b.id job == id

  abbrev pub has_ids : ℕ → ℕ → A → Bool
  has_ids id sub_id job = (b.id job == id) && (b.sub_id job == sub_id)

  unfoldable pub pop_os_q : ℕ → Fifo A → Option A × Fifo A
  pop_os_q id q = (find_by (has_id id) q.os_q, record q { os_q = remove_by (has_id id) q.os_q })

  pub pop_os_q_sub : ℕ → ℕ → Fifo A → Option A × Fifo A
  pop_os_q_sub id sub_id q =
      (find_by (has_ids id sub_id) q.os_q, record q { os_q = remove_by (has_ids id sub_id) q.os_q })

  unfoldable pub query_job : ℕ → Fifo A → Option A
  query_job id q = find_by (has_id id) q.os_q

  pub query_job_sub : ℕ → ℕ → Fifo A → Option A
  query_job_sub id sub_id q = find_by (has_ids id sub_id) q.os_q

  abbrev pub fifo_queue : IQueue A
  fifo_queue = record {
    State = Fifo A;
    push_wait_q = push_wait_q;
    dispatch_next = dispatch_next;
    pop_os_q = pop_os_q;
    waiting = λ q. q.wait_q;
    outstanding = λ q. q.os_q;
  }
