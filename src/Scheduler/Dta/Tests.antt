-- ===== src/Scheduler/Dta/Tests.antt =====
-- A request of two packets on two servers.
use pfssim.Base.{
  arith, zero, suc, ◌≢◌, update, ℕ, ◌≡◌, refl, true, false, Option, none, some, [], ◌∷◌, negsuc,
}
use pfssim.Packet.{GPacket, pfs_r_req}
use pfssim.Scheduler.Samples.{whole}
use pfssim.Scheduler.Edf.{Edf}
use pfssim.Scheduler.Edf as Edf
use pfssim.Scheduler.Fifo as Q
use pfssim.Scheduler.Fifo.{Fifo}
use pfssim.Scheduler.Dta.Inner.{has, first_waiting, refine}
use pfssim.Scheduler.Dta.{find_short, Request, Dta, Result, push_wait_q, dispatch_next}
use pfssim.Scheduler.Dta.Refine.{kept, refine-kept}
use pfssim.Scheduler.Dta.Answers.{IsReady, Answers, dispatch_next-Answers}
use pfssim.Scheduler.Dta.Safety.{Gives, dispatch_next-Gives}

abbrev part : ℕ → ℕ → GPacket
part id server = record {
  kind = pfs_r_req;
  id = id;
  sub_id = 4;
  app = 0;
  size = 100;
  client_id = 0;
  file_id = 5;
  high_offset = 0;
  low_offset = 0;
  read = true;
  ds_id = server;
  aggregate_size = 200;
  total_subreqs = 2;
  sub_req_num = 2;
  o_direct = false;
}

abbrev empty : Dta whole
empty = record {
  degree = 1;
  ds_num = 2;
  p_lag = 1;
  qos_delays = λ a. 50;
  degrees = λ i. 0;
  req_list = λ r. none;
  waiting_subreqs = λ p. none;
  dispatched_subreqs = λ p. none;
  edf_q = λ i. record {
    queue = record { degree = negsuc 0; wait_q = []; os_q = [] };
    qos_delay = λ a. 50;
  };
  lr_q = λ i. record { degree = negsuc 0; wait_q = []; os_q = [] };
  last_fin_time = λ i. none;
  fin_int = λ i. 1;
  int_weight = 1;
  service_time = λ i. 1;
  svc_weight = 1;
}

abbrev or : Option (Dta whole) → Dta whole → Dta whole
or none q = q
or (some q) r = q

abbrev push : ℕ → GPacket → Dta whole → Dta whole
push now p q = or (push_wait_q whole (λ n. n) (λ p. 10) now p q) q

abbrev two_parts : Dta whole
two_parts = push 11 (part 1000001 1) (push 10 (part 1000000 0) empty)

dispatch_next-Gives_example :
    Gives whole (λ n. n) two_parts (dispatch_next whole (λ n. n) 20 two_parts)
dispatch_next-Gives_example = dispatch_next-Gives whole (λ n. n) 20 two_parts

-- The first packet goes out.
abbrev Out : ℕ → Result whole → Type 0
Out id (some (some p, q)) = p.id ≡ id
Out id (some (none, q)) = ⊥
Out id none = ⊥

two_parts-Out : Out 1000000 (dispatch_next whole (λ n. n) 20 two_parts)
unfolding dispatch_next push_wait_q Edf.push_wait_q first_waiting Q.see_wait_q_next Q.push_wait_q
    find_short
two_parts-Out = refl

abbrev stale : Fifo GPacket
stale = record {
  degree = negsuc 0;
  wait_q = part 1000000 0 ∷ part 1000001 1 ∷ part 1000002 1 ∷ [];
  os_q = [];
}

refine-kept_example :
    refine two_parts.waiting_subreqs stale
    ≡ some (record stale { wait_q = kept two_parts.waiting_subreqs stale.wait_q })
refine-kept_example = refine-kept two_parts.waiting_subreqs stale

-- One packet that waits for the server 0, as `pushWaitQ` leaves it.
abbrev one_queue : ℕ → Edf whole GPacket
one_queue zero = record {
  queue = record { degree = negsuc 0; wait_q = part 1000000 0 ∷ []; os_q = [] };
  qos_delay = λ a. 50;
}
one_queue (suc i) = record {
  queue = record { degree = negsuc 0; wait_q = []; os_q = [] };
  qos_delay = λ a. 50;
}

abbrev one_slot : ℕ → Option ℕ
one_slot zero = some 1000000
one_slot (suc i) = none

abbrev one_request : Request whole
one_request = record {
  deadline = 60;
  waiting_ctr = 1;
  total_ctr = 2;
  serving_ctr = 0;
  served_ctr = 0;
  waiting_subreqs = one_slot;
}

abbrev one_part : Dta whole
one_part = record empty {
  req_list = update (λ r. none) 1000004 (some one_request);
  waiting_subreqs = update (λ p. none) 1000000 (some (part 1000000 0));
  edf_q = one_queue;
}

one_slot-others :
    (j pid : ℕ)
    → one_slot j ≡ some pid
    → j ≢ 0
    → (pid ≢ 1000000) × (has one_part.waiting_subreqs pid ≡ true)
one_slot-others zero pid h g = absurd (g refl)
one_slot-others (suc j) pid h g = absurd (cc h)

one_part-IsReady : IsReady whole (λ n. n) one_part
one_part-IsReady zero = (
  ((refl, refl), ((λ w. (one_request, omega arith, refl, one_slot-others)), tt)),
  ((refl, refl), tt),
)
one_part-IsReady (suc i) = (((refl, refl), tt), ((refl, refl), tt))

dispatch_next-Answers_example : Answers whole (λ n. n) (dispatch_next whole (λ n. n) 20 one_part)
dispatch_next-Answers_example = dispatch_next-Answers whole (λ n. n) 20 one_part one_part-IsReady
