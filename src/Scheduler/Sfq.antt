-- ===== src/Scheduler/Sfq.antt =====
-- omnetpp/scheduler/SFQ/SFQ.cc: start-time fair queueing over one wait queue per application.
pub mod Scan
pub mod Pick
pub mod Dispatch
pub mod Tags
pub mod Counts
pub mod Laws
mod Tests
use pfssim.Base.{
  ℕ, zero, suc, ◌+◌, ℤ, Bool, true, false, not, ◌&&◌, List, [], ◌∷◌, ◌++◌, Option, none, some,
  Arith, map, length, reaches, leb, ◌==◌, if◌then◌else◌, find_by, remove_by, update,
}
use pfssim.Packet.{BPacket}
use pfssim.Scheduler.IQueue.{IQueue}

-- A packet with its start and finish tags.
pub record Job (F : Arith) (A : Type 0) : Type 0 where
  pub pkt : A
  pub stag : F.Double
  pub ftag : F.Double

-- The code treats an entry of `waitQ` that is NULL as it treats an empty list: both are [] here.
pub record Sfq (F : Arith) (A : Type 0) : Type 0 where
  pub degree : ℤ
  pub app_num : ℕ
  pub weight : ℕ → F.Double
  pub wait_q : ℕ → List (Job F A)
  pub os_q : List (Job F A)
  pub max_ftags : ℕ → F.Double
  pub vtime : F.Double
  pub startpos : ℕ

-- `minindex` of what the loop returns; `none` is -1.
index_of : {B : Type 0} → Option (Option (ℕ × B)) → Option ℕ
index_of none = none
index_of (some none) = none
index_of (some (some (i, t))) = some i

module _ (F : Arith) {A : Type 0} where
  unfoldable pub init : ℤ → ℕ → (ℕ → F.Double) → Sfq F A
  init deg tlapps weights = record {
    degree = deg;
    app_num = tlapps;
    weight = weights;
    wait_q = λ i. [];
    os_q = [];
    max_ftags = λ i. F.zero;
    vtime = F.zero;
    startpos = 0;
  }

  -- `back()->ftag`, or another value where there is no back.
  pub back_ftag : F.Double → List (Job F A) → F.Double
  back_ftag t [] = t
  back_ftag t (j ∷ js) = back_ftag j.ftag js

  -- The start tag of a new job: that of an idle application, or the last finish tag.
  pub start_tag : Sfq F A → ℕ → F.Double
  unfolding back_ftag
  start_tag q app = back_ftag idle (q.wait_q app)
    where
      idle : F.Double
      idle = if F.lt q.vtime (q.max_ftags app) then q.max_ftags app else q.vtime

  -- One round of the scan: the best index so far with its tag, after a look at queue `i`.
  better : ℕ → List (Job F A) → Option (ℕ × F.Double) → Option (ℕ × F.Double)
  better i [] best = best
  better i (j ∷ js) none = some (i, j.stag)
  better i (j ∷ js) (some (k, t)) = if F.lt j.stag t then some (i, j.stag) else some (k, t)

  pub visit : Sfq F A → ℕ → Option (ℕ × F.Double) → Option (ℕ × F.Double)
  unfolding better
  visit q i best = better i (q.wait_q i) best

  -- `while(1)` of `dispatchNext` on fuel; the outer `none` means that the fuel ran out.
  pub scan : Sfq F A → ℕ → ℕ → Bool → Option (ℕ × F.Double) → Option (Option (ℕ × F.Double))
  scan q zero i firstround best = none
  scan q (suc fuel) i firstround best =
      let i' = if leb q.app_num i then 0 else i in
      let home = i' == q.startpos in
      let rest = scan q fuel (i' + 1) (firstround && not home) (visit q i' best) in
      if home && not firstround then some best else rest

  -- The index that the loop leaves in `minindex`. The fuel is shown to be enough.
  pub min_index : Sfq F A → Option ℕ
  unfolding index_of
  min_index q = index_of (scan q (suc (suc q.app_num)) q.startpos true none)

  -- The tags of the next job of the queue follow those of the one that leaves.
  pub retag : Job F A → List (Job F A) → List (Job F A)
  retag job [] = []
  retag job (next ∷ js) =
      record next { stag = job.ftag; ftag = F.add next.ftag (F.sub job.ftag next.stag) } ∷ js

  -- `maxftags` is set where the queue is left empty.
  new_max : Sfq F A → ℕ → Job F A → List (Job F A) → ℕ → F.Double
  new_max q i job [] = update q.max_ftags i job.ftag
  new_max q i job (next ∷ js) = q.max_ftags

  -- What follows once `minindex` is found.
  pub serve : Sfq F A → ℕ → List (Job F A) → Option A × Sfq F A
  unfolding retag new_max
  serve q i [] = (none, q)
  serve q i (job ∷ js) = (
    some job.pkt,
    record q {
      wait_q = update q.wait_q i (retag job js);
      os_q = q.os_q ++ job ∷ [];
      max_ftags = new_max q i job js;
      vtime = job.stag;
      startpos = if leb q.app_num (i + 1) then 0 else i + 1;
    },
  )

  serve_index : Sfq F A → Option ℕ → Option A × Sfq F A
  serve_index q none = (none, q)
  serve_index q (some i) = serve q i (q.wait_q i)

  pub dispatch_next : Sfq F A → Option A × Sfq F A
  unfolding serve_index
  dispatch_next q =
      if reaches (length q.os_q) q.degree then (none, q) else serve_index q (min_index q)

module _ (F : Arith) {A : Type 0} (b : BPacket A) where
  new_job : Sfq F A → A → Job F A
  unfolding start_tag
  new_job q pkt = record { pkt = pkt; stag = tag; ftag = F.add tag share }
    where
      tag : F.Double
      tag = start_tag F q (b.app pkt)

      share : F.Double
      share = F.div (F.of_nat (b.size pkt)) (q.weight (b.app pkt))

  unfoldable pub push_wait_q : A → Sfq F A → Sfq F A
  unfolding new_job
  push_wait_q pkt q = record q { wait_q = update q.wait_q app (q.wait_q app ++ new_job q pkt ∷ []) }
    where
      app : ℕ
      app = b.app pkt

  -- The search of `popOsQ` and `queryJob`; where nothing is found they print an error.
  abbrev pub job_has_id : ℕ → Job F A → Bool
  job_has_id id j = b.id j.pkt == id

  abbrev pub job_has_ids : ℕ → ℕ → Job F A → Bool
  job_has_ids id sub_id j = (b.id j.pkt == id) && (b.sub_id j.pkt == sub_id)

  abbrev pub pkt_of : Option (Job F A) → Option A
  pkt_of none = none
  pkt_of (some j) = some j.pkt

  pub pop_os_q : ℕ → Sfq F A → Option A × Sfq F A
  pop_os_q id q = (
    pkt_of (find_by (job_has_id id) q.os_q),
    record q { os_q = remove_by (job_has_id id) q.os_q },
  )

  pub pop_os_q_sub : ℕ → ℕ → Sfq F A → Option A × Sfq F A
  pop_os_q_sub id sub_id q = (
    pkt_of (find_by (job_has_ids id sub_id) q.os_q),
    record q { os_q = remove_by (job_has_ids id sub_id) q.os_q },
  )

  pub query_job : ℕ → Sfq F A → Option A
  query_job id q = pkt_of (find_by (job_has_id id) q.os_q)

  pub query_job_sub : ℕ → ℕ → Sfq F A → Option A
  query_job_sub id sub_id q = pkt_of (find_by (job_has_ids id sub_id) q.os_q)

-- The packets of the queues below `n`.
pub packets : {F : Arith} {A : Type 0} → (ℕ → List (Job F A)) → ℕ → List A
packets w zero = []
packets w (suc n) = packets w n ++ map (λ j. j.pkt) (w n)

abbrev pub sfq_queue : (F : Arith) {A : Type 0} → BPacket A → IQueue A
sfq_queue F b = record {
  State = Sfq F _;
  push_wait_q = push_wait_q F b;
  dispatch_next = dispatch_next F;
  pop_os_q = pop_os_q F b;
  waiting = λ q. packets q.wait_q q.app_num;
  outstanding = λ q. map (λ j. j.pkt) q.os_q;
}
