-- ===== src/Scheduler/Edf/Tests.antt =====
-- `EDF` over whole numbers in place of doubles: applications 0 and 1 with delays 5 and 1.
use pfssim.Base.{ℕ, ◌+◌, ◌≡◌, refl, pos, List, [], ◌∷◌, some, count_by, ◌==◌, if◌then◌else◌}
use pfssim.Scheduler.IQueue.{Call, pushes, pushed, run}
use pfssim.Scheduler.Samples.{Job, job, job_packet, whole, whole_order}
use pfssim.Scheduler.Fifo
use pfssim.Scheduler.Edf.{Edf, deadline, push_wait_q, dispatch_next, edf_queue}
use pfssim.Scheduler.Edf.Laws.{IsOrdered, Earliest, edf_run}

-- The rise time of a test packet is its size. The deadlines below are 7, 11 and 11.
abbrev lined_up : Edf whole Job
lined_up = record {
  queue = record { degree = pos 4; wait_q = job 1 0 2 ∷ job 2 1 10 ∷ job 3 0 6 ∷ []; os_q = [] };
  qos_delay = λ a. if a == 0 then 5 else 1;
}

abbrev rise : Job → ℕ
rise j = j.size

lined_up-IsOrdered : IsOrdered whole whole_order job_packet rise lined_up
lined_up-IsOrdered = ((refl, (refl, tt)), ((refl, tt), (tt, tt)))

abbrev calls : List (Call Job)
calls = pushes (job 4 1 5) ∷ []

edf_run_example :
    let out = run (edf_queue whole job_packet rise) lined_up calls in
    (count_by (λ j. j.app == 1) lined_up.queue.wait_q
        + count_by (λ j. j.app == 1) lined_up.queue.os_q
        + count_by (λ j. j.app == 1) (pushed calls)
      ≡ count_by (λ j. j.app == 1) out.popped
        + count_by (λ j. j.app == 1) out.state.queue.wait_q
        + count_by (λ j. j.app == 1) out.state.queue.os_q)
    × Earliest whole whole_order job_packet rise
        (deadline whole job_packet rise out.state)
        (dispatch_next whole job_packet rise out.state)
edf_run_example =
    edf_run whole whole_order job_packet rise (λ j. j.app == 1) lined_up calls lined_up-IsOrdered

-- The packet that comes last has the earliest deadline, and goes first.
late_arrival_first :
    (dispatch_next whole job_packet rise
      (run (edf_queue whole job_packet rise) lined_up calls).state).0
    ≡ some (job 4 1 5)
unfolding run push_wait_q dispatch_next Fifo.dispatch_next
late_arrival_first = refl
