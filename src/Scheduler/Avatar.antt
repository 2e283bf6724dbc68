-- ===== src/Scheduler/Avatar.antt =====
-- omnetpp/scheduler/I2L/AVATAR.cc: an EDF queue without a degree of its own, in front of a threshold
-- on the outstanding packets. The simulation's clock is a field of the state. `windowEnd`, which sets
-- the threshold anew, and the response times that only it reads are left out, but for the search of a
-- rank (Rank).
pub mod Laws
pub mod Rank
mod Tests
use pfssim.Base.{
  ℕ, ◌+◌, Bool, true, false, not, ◌||◌, Option, none, some, ◌==◌, ltb, if◌then◌else◌, Arith, length,
}
use pfssim.Packet.{BPacket}
use pfssim.Scheduler.IQueue.{IQueue}
use pfssim.Scheduler.Edf
use pfssim.Scheduler.Edf.{Edf}

pub record Avatar (F : Arith) (A : Type 0) : Type 0 where
  pub queue : Edf F A
  pub l_e_new : ℕ
  pub l_e_new_deadline : ℕ
  pub x : ℕ
  pub l_o_max : ℕ
  pub l_o : F.Double
  pub current_window_end : F.Double
  pub idle_status : Bool
  pub now : F.Double

-- `ratio` is 0.9.
module _ (F : Arith) {A : Type 0} (b : BPacket A) (risetime : A → F.Double) (ratio : F.Double) where
  pub push_wait_q : A → Avatar F A → Avatar F A
  push_wait_q p a = record a {
    queue = Edf.push_wait_q F b risetime p a.queue;
    l_e_new = a.l_e_new + 1;
    l_e_new_deadline =
        if not (F.lt a.current_window_end (Edf.deadline F b risetime a.queue p))
        then a.l_e_new_deadline + 1
        else a.l_e_new_deadline;
  }

  l_o_exist : Avatar F A → ℕ
  l_o_exist a = length a.queue.queue.os_q

  -- The most outstanding packets of the window.
  new_max : Avatar F A → ℕ
  unfolding l_o_exist
  new_max a = if ltb a.l_o_max (l_o_exist a) then l_o_exist a else a.l_o_max

  -- The result of the EDF queue; AVATAR becomes idle when nothing waits and few are outstanding.
  tried : Avatar F A → Option A × Edf F A → Option A × Avatar F A
  unfolding l_o_exist new_max
  tried a (some p, q) = (some p, record a { queue = q })
  tried a (none, q) =
      let a' = record a { queue = q } in
      (
        none,
        record a' {
          idle_status = a.idle_status || F.lt (F.of_nat (l_o_exist a')) (F.mul a.l_o ratio);
          l_o_max = new_max a';
        },
      )

  -- A packet that misses its deadline, or room below the threshold.
  pub may_dispatch : Avatar F A → Bool
  unfolding l_o_exist
  may_dispatch a =
      not (Edf.get_num_reqs_in_wait_q_within_deadline F b risetime a.now a.queue == 0)
      || F.lt (F.of_nat (l_o_exist a)) a.l_o

  pub dispatch_next : Avatar F A → Option A × Avatar F A
  unfolding tried may_dispatch new_max
  dispatch_next a =
      if may_dispatch a
      then tried a (Edf.dispatch_next F b risetime a.queue)
      else (none, record a { idle_status = false; l_o_max = new_max a })

  -- A packet that is not found is NULL, which the source reads.
  finished : Avatar F A → Option A × Edf F A → Option A × Avatar F A
  finished a (none, q) = (none, record a { queue = q })
  finished a (some p, q) = (some p, record a { queue = q; x = a.x + 1 })

  pub pop_os_q : ℕ → Avatar F A → Option A × Avatar F A
  unfolding finished
  pop_os_q id a = finished a (Edf.pop_os_q F b risetime id a.queue)

  abbrev pub avatar_queue : IQueue A
  avatar_queue = record {
    State = Avatar F A;
    push_wait_q = push_wait_q;
    dispatch_next = dispatch_next;
    pop_os_q = pop_os_q;
    waiting = λ a. a.queue.queue.wait_q;
    outstanding = λ a. a.queue.queue.os_q;
  }
