-- ===== src/Scheduler/I2l/Tests.antt =====
-- I2L over a FIFO queue of degree 2 and over AVATAR: application 0 has no token, application 1 one.
use pfssim.Base.{
  ℕ, ◌+◌, refl, pos, negsuc, true, false, List, [], ◌∷◌, All, ◌==◌, if◌then◌else◌, arith,
}
use pfssim.Scheduler.IQueue.{IQueue, Contract, pushes, dispatches, pops}
use pfssim.Scheduler.Samples.{Job, job, job_packet, whole, whole_order}
use pfssim.Scheduler.Fifo.{fifo_queue}
use pfssim.Scheduler.Fifo.Laws.{fifo_contract, IsBounded-Valid, Accepts-any}
use pfssim.Scheduler.Avatar.{avatar_queue}
use pfssim.Scheduler.Avatar.Laws.{avatar_contract}
use pfssim.Scheduler.I2l.{Avatar, I2l}
use pfssim.Scheduler.I2l.Release.{IsReady}
use pfssim.Scheduler.I2l.Timed.{Action, calls, notifies}

abbrev under : IQueue Job
under = fifo_queue job_packet

abbrev avatar : Avatar whole job_packet under
avatar = record { idle = λ s. true; window_end = λ s. s; current_window_end = λ s. 9 }

abbrev busy : I2l whole job_packet under avatar 0
busy = record {
  sarc = record {
    app_num = 2;
    max_token = λ i. i + 1;
    cur_token = λ i. i;
    req_q = λ i. if i == 0 then job 1 0 8 ∷ job 2 0 8 ∷ [] else [];
    replenish_interval = 5;
    next_periodic_replenishment = 5;
  };
  avatar = record { degree = pos 2; wait_q = []; os_q = [] };
  idle_status = true;
  now = 1;
}

busy-IsReady : IsReady whole job_packet under avatar 0 (fifo_contract job_packet) 2 busy
busy-IsReady = record {
  valid = IsBounded-Valid job_packet busy.avatar (omega arith);
  all_ok = λ i. taken (busy.sarc.req_q i);
  num = refl;
}
  where
    taken : (l : List Job) → All ((fifo_contract job_packet).Accepts) l
    taken [] = tt
    taken (x ∷ xs) = (Accepts-any job_packet x, taken xs)

-- The same tokens in front of AVATAR with a threshold of 2, where packet 5 is outstanding.
abbrev rise : Job → ℕ
rise j = j.size

abbrev lower : IQueue Job
lower = avatar_queue whole job_packet rise 0

abbrev avatar_of_lower : Avatar whole job_packet lower
avatar_of_lower = record {
  idle = λ a. a.idle_status;
  window_end = λ a. a;
  current_window_end = λ a. a.current_window_end;
}

abbrev contended : I2l whole job_packet lower avatar_of_lower 0
contended = record {
  sarc = busy.sarc;
  avatar = record {
    queue = record {
      queue = record { degree = negsuc 0; wait_q = []; os_q = job 5 0 3 ∷ [] };
      qos_delay = λ i. 5;
    };
    l_e_new = 0;
    l_e_new_deadline = 0;
    x = 0;
    l_o_max = 0;
    l_o = 2;
    current_window_end = 9;
    idle_status = false;
    now = 1;
  };
  idle_status = true;
  now = 1;
}

abbrev kept : Contract lower
kept = avatar_contract whole whole_order job_packet rise 0

abbrev timed : List (ℕ × Action Job)
timed =
    (1, calls (pushes (job 3 1 8)))
    ∷ (2, calls dispatches)
    ∷ (2, calls (pushes (job 4 0 8)))
    ∷ (5, notifies)
    ∷ (9, notifies)
    ∷ (9, calls (pops 3))
    ∷ []
