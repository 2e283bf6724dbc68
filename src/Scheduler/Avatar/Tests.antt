-- ===== src/Scheduler/Avatar/Tests.antt =====
-- AVATAR with a packet that misses its deadline, over whole numbers in place of doubles.
use pfssim.Base.{ℕ, ◌≡◌, refl, negsuc, true, false, [], ◌∷◌, some, ◌==◌, if◌then◌else◌, arith}
use pfssim.Scheduler.Samples.{Job, job, job_packet, whole, whole_order}
use pfssim.Scheduler.Edf
use pfssim.Scheduler.Edf.{get_num_reqs_in_wait_q_within_deadline, count_early}
use pfssim.Scheduler.Avatar.{Avatar, dispatch_next}
use pfssim.Scheduler.Avatar.Laws.{overdue_is_dispatched}

-- The threshold of 1 is reached, and packet 1 has the deadline 7.
abbrev busy : Avatar whole Job
busy = record {
  queue = record {
    queue = record {
      degree = negsuc 0;
      wait_q = job 1 0 2 ∷ job 2 1 10 ∷ [];
      os_q = job 3 0 6 ∷ [];
    };
    qos_delay = λ a. if a == 0 then 5 else 1;
  };
  l_e_new = 3;
  l_e_new_deadline = 3;
  x = 0;
  l_o_max = 1;
  l_o = 1;
  current_window_end = 20;
  idle_status = false;
  now = 9;
}

abbrev rise : Job → ℕ
rise j = j.size

late : get_num_reqs_in_wait_q_within_deadline whole job_packet rise 9 busy.queue ≡ 1
unfolding get_num_reqs_in_wait_q_within_deadline count_early
late = refl

overdue_is_dispatched_example :
    (p : Job) × ((dispatch_next whole job_packet rise 0 busy).0 ≡ some p)
    × (whole.lt (Edf.deadline whole job_packet rise busy.queue p) 9 ≡ true)
overdue_is_dispatched_example =
    overdue_is_dispatched whole whole_order job_packet rise 0 busy 0 refl
      (λ n. omega (arith, late, n))
