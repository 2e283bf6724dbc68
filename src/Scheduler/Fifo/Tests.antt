-- ===== src/Scheduler/Fifo/Tests.antt =====
-- `FIFO` at a queue of degree 2 with one outstanding packet.
use pfssim.Base.{◌≡◌, refl, pos, List, [], ◌∷◌, ◌++◌, find_by, remove_by}
use pfssim.Scheduler.IQueue.{Call, pushes, dispatches, pops, run}
use pfssim.Scheduler.Samples.{Job, job, job_packet}
use pfssim.Scheduler.Fifo.{Fifo, push_wait_q, dispatch_next, pop_os_q, fifo_queue}
use pfssim.Scheduler.Fifo.Order.{fifo_run_order}

abbrev busy : Fifo Job
busy = record { degree = pos 2; wait_q = job 2 0 8 ∷ job 3 1 8 ∷ []; os_q = job 1 0 8 ∷ [] }

abbrev script : List (Call Job)
script = dispatches ∷ pushes (job 4 0 8) ∷ dispatches ∷ pops 1 ∷ dispatches ∷ []

-- The second dispatch finds the queue full; the third has room again.
run_dispatches : (run (fifo_queue job_packet) busy script).dispatched ≡ job 2 0 8 ∷ job 3 1 8 ∷ []
unfolding run push_wait_q dispatch_next pop_os_q find_by remove_by
run_dispatches = refl

fifo_run_order_example :
    let o = run (fifo_queue job_packet) busy script in
    o.dispatched ++ o.state.wait_q ≡ job 2 0 8 ∷ job 3 1 8 ∷ job 4 0 8 ∷ []
fifo_run_order_example = fifo_run_order job_packet busy script
