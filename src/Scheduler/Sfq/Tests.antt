-- ===== src/Scheduler/Sfq/Tests.antt =====
-- `SFQ` over whole numbers in place of doubles: two applications, of weights 1 and 2.
use pfssim.Base.{
  ℕ, ◌+◌, ◌<◌, ◌≡◌, refl, pos, negsuc, true, false, List, [], ◌∷◌, arith, count_by, find_by,
  remove_by, ltb, ◌==◌, if◌then◌else◌,
}
use pfssim.Scheduler.IQueue.{Call, pushes, dispatches, pops, pushed, run}
use pfssim.Scheduler.Samples.{Job, job, job_packet, whole, whole_order, whole_tags}
use pfssim.Scheduler.Sfq.{
  Sfq, init, push_wait_q, dispatch_next, pop_os_q, min_index, scan, visit, serve, start_tag,
  packets, sfq_queue,
}
use pfssim.Scheduler.Sfq.Dispatch.{Dispatches, dispatch_next-cases}
use pfssim.Scheduler.Sfq.Tags.{IsTagged, init-IsTagged, push_wait_q-IsTagged}
use pfssim.Scheduler.Sfq.Counts.{count_jobs}
use pfssim.Scheduler.Sfq.Laws.{sfq_run}

abbrev weights : ℕ → ℕ
weights i = if i == 0 then 1 else 2

fresh : Sfq whole Job
unfolding init
fresh = init whole (pos 3) 2 weights

fresh-IsTagged : IsTagged whole fresh
unfolding fresh
fresh-IsTagged = init-IsTagged whole whole_tags (pos 3) 2 weights (omega arith) positive
  where
    positive : (i : ℕ) → i < 2 → ltb 0 (weights i) ≡ true
    positive i h = ground arith

-- Two requests of application 0 and two of application 1, all of size 8.
abbrev arrivals : List (Call Job)
arrivals =
    pushes (job 1 0 8)
    ∷ pushes (job 2 0 8)
    ∷ pushes (job 3 1 8)
    ∷ pushes (job 4 1 8)
    ∷ dispatches
    ∷ dispatches
    ∷ pops 1
    ∷ dispatches
    ∷ dispatches
    ∷ []

-- The start tags are 0 and 8, and 0 and 4: the heavier application goes ahead.
run-arrivals :
    (run (sfq_queue whole job_packet) fresh arrivals).dispatched
    ≡ job 1 0 8 ∷ job 3 1 8 ∷ job 4 1 8 ∷ job 2 0 8 ∷ []
unfolding fresh run push_wait_q dispatch_next pop_os_q min_index scan visit serve start_tag find_by
    remove_by
run-arrivals = refl

sfq_run_example :
    let out = run (sfq_queue whole job_packet) fresh arrivals in
    (count_by (λ j. j.app == 1) (packets fresh.wait_q fresh.app_num)
        + count_jobs (λ j. j.app == 1) fresh.os_q
        + count_by (λ j. j.app == 1) (pushed arrivals)
      ≡ count_by (λ j. j.app == 1) out.popped
        + count_by (λ j. j.app == 1) (packets out.state.wait_q out.state.app_num)
        + count_jobs (λ j. j.app == 1) out.state.os_q)
    × IsTagged whole out.state
    × (ltb out.state.vtime fresh.vtime ≡ false)
unfolding fresh
sfq_run_example =
    sfq_run whole whole_tags job_packet (λ j. j.app == 1) fresh arrivals (omega arith)
      fresh-IsTagged

loaded : Sfq whole Job
loaded = push_wait_q whole job_packet (job 1 0 8) (push_wait_q whole job_packet (job 3 1 8) fresh)

loaded-IsTagged : IsTagged whole loaded
unfolding loaded fresh init push_wait_q
loaded-IsTagged =
    push_wait_q-IsTagged whole whole_tags job_packet (job 1 0 8)
      (push_wait_q whole job_packet (job 3 1 8) fresh) (omega arith)
      (push_wait_q-IsTagged whole whole_tags job_packet (job 3 1 8) fresh (omega arith)
        fresh-IsTagged)

dispatch_next-cases_example : Dispatches whole whole_order loaded
unfolding loaded fresh init push_wait_q
dispatch_next-cases_example =
    dispatch_next-cases whole whole_order loaded 3 refl loaded-IsTagged.start_in

abbrev uncontrolled : Sfq whole Job
uncontrolled = record loaded { degree = negsuc 0 }
