-- ===== src/Scheduler/Dsfq.antt =====
-- omnetpp/scheduler/DSFQ: fair queueing over several schedulers, which tell one another of the
-- bytes that they accepted (DSFQ-A), dispatched (DSFQ-D) or finished (DSFQ-F).
pub mod Tags
pub mod Announce
mod Tests
use pfssim.Base.{
  ℕ, zero, suc, ◌+◌, ℤ, Bool, true, false, not, List, [], ◌∷◌, Option, none, some, Arith,
  if◌then◌else◌, update,
}
use pfssim.Packet.{BPacket}
use pfssim.Scheduler.Sfq
use pfssim.Scheduler.Sfq.{Sfq, Job}

-- `sPacket`. An ID of -1 is `none`.
pub record SPacket (F : Arith) : Type 0 where
  pub lengths : ℕ → F.Double
  pub app_num : ℕ
  pub src : Option ℕ
  pub dst : Option ℕ

-- `DSFQ`: the queue, its ID, and `pktToPropagate`, which collects what is not yet told.
pub record Dsfq (F : Arith) (A : Type 0) : Type 0 where
  pub my_id : ℕ
  pub sfq : Sfq F A
  pub pending : SPacket F

-- `for (i = 0; i < n; i ++) setLengths(i, 0)`
pub reset_lengths : (F : Arith) → ℕ → (ℕ → F.Double) → ℕ → F.Double
reset_lengths F zero l = l
reset_lengths F (suc n) l = update (reset_lengths F n l) n F.zero

module _ (F : Arith) {A : Type 0} where
  pub init : ℕ → ℤ → ℕ → (ℕ → F.Double) → Dsfq F A
  init id deg totalapp weights = record {
    my_id = id;
    sfq = Sfq.init F deg totalapp weights;
    pending = record { lengths = λ i. F.zero; app_num = totalapp; src = none; dst = none };
  }

  -- `back()->ftag += d` on a list that is not empty.
  pub bump_back : F.Double → List (Job F A) → List (Job F A)
  bump_back d [] = []
  bump_back d (j ∷ []) = record j { ftag = F.add j.ftag d } ∷ []
  bump_back d (j ∷ k ∷ js) = j ∷ bump_back d (k ∷ js)

  -- `front()->stag += d; front()->ftag += d`.
  pub bump_front : F.Double → List (Job F A) → List (Job F A)
  bump_front d [] = []
  bump_front d (j ∷ js) = record j { stag = F.add j.stag d; ftag = F.add j.ftag d } ∷ js

  -- One round of the two loops, for an application whose length is not 0: `maxftags` moves where
  -- no job waits, and otherwise the tags of a job.
  bump :
      (F.Double → List (Job F A) → List (Job F A))
      → ℕ
      → F.Double
      → List (Job F A)
      → Sfq F A
      → Sfq F A
  bump how i d [] q = record q { max_ftags = update q.max_ftags i (F.add (q.max_ftags i) d) }
  bump how i d (j ∷ js) q = record q { wait_q = update q.wait_q i (how d (j ∷ js)) }

  pub insert_one : (F.Double → List (Job F A) → List (Job F A)) → SPacket F → ℕ → Sfq F A → Sfq F A
  unfolding bump
  insert_one how spkt i q =
      if F.eq (spkt.lengths i) F.zero
      then q
      else bump how i (F.div (spkt.lengths i) (q.weight i)) (q.wait_q i) q

  -- The rounds 0, …, n - 1.
  pub insert_upto : (F.Double → List (Job F A) → List (Job F A)) → SPacket F → ℕ → Sfq F A → Sfq F A
  insert_upto how spkt zero q = q
  insert_upto how spkt (suc n) q = insert_one how spkt n (insert_upto how spkt n q)

  pub receive_s_packet_insert_back : SPacket F → Dsfq F A → Dsfq F A
  unfolding insert_upto bump_back
  receive_s_packet_insert_back spkt q = record q {
    sfq = insert_upto bump_back spkt spkt.app_num q.sfq;
  }

  pub receive_s_packet_insert_front : SPacket F → Dsfq F A → Dsfq F A
  unfolding insert_upto bump_front
  receive_s_packet_insert_front spkt q = record q {
    sfq = insert_upto bump_front spkt spkt.app_num q.sfq;
  }

  -- What is told, and the collector emptied.
  propagate_from : Option ℕ → Dsfq F A → Option (SPacket F) × Dsfq F A
  unfolding reset_lengths
  propagate_from none q = (none, q)
  propagate_from (some src) q = (
    some (record q.pending { dst = none }),
    record q { pending = record q.pending { lengths = emptied; src = none } },
  )
    where
      emptied : ℕ → F.Double
      emptied = reset_lengths F q.pending.app_num q.pending.lengths

  pub propagate_s_packet : Dsfq F A → Option (SPacket F) × Dsfq F A
  unfolding propagate_from
  propagate_s_packet q = propagate_from q.pending.src q

module _ (F : Arith) {A : Type 0} (b : BPacket A) where
  -- `setLengths(app, getLengths(app) + getSize())`
  pub add_length : A → Dsfq F A → Dsfq F A
  add_length pkt q = record q { pending = record q.pending { lengths = more } }
    where
      more : ℕ → F.Double
      more =
          update q.pending.lengths (b.app pkt)
            (F.add (q.pending.lengths (b.app pkt)) (F.of_nat (b.size pkt)))

  pub activate : Dsfq F A → Dsfq F A
  activate q = record q { pending = record q.pending { src = some q.my_id } }

  -- DSFQA.cc
  pub push_wait_q_a : A → Dsfq F A → Dsfq F A
  unfolding add_length activate
  push_wait_q_a pkt q = activate (add_length pkt (record q { sfq = Sfq.push_wait_q F b pkt q.sfq }))

  -- DSFQALB.cc: told only from a threshold on.
  pub push_wait_q_lb : F.Double → A → Dsfq F A → Dsfq F A
  unfolding add_length activate
  push_wait_q_lb workload_threshold pkt q =
      if F.lt (q'.pending.lengths (b.app pkt)) workload_threshold then q' else activate q'
    where
      q' : Dsfq F A
      q' = add_length pkt (record q { sfq = Sfq.push_wait_q F b pkt q.sfq })

  told : Option A → Dsfq F A → Option A × Dsfq F A
  unfolding add_length activate
  told none q = (none, q)
  told (some pkt) q = (some pkt, activate (add_length pkt q))

  -- DSFQD.cc
  pub dispatch_next_d : Dsfq F A → Option A × Dsfq F A
  unfolding told
  dispatch_next_d q = let (r, s) = Sfq.dispatch_next F q.sfq in told r (record q { sfq = s })

  -- DSFQF.cc
  pub pop_os_q_f : ℕ → Dsfq F A → Option A × Dsfq F A
  unfolding told
  pop_os_q_f id q = let (r, s) = Sfq.pop_os_q F b id q.sfq in told r (record q { sfq = s })

-- DSFQATB.cc: the time of the next call.
pub notify : (F : Arith) → F.Double → F.Double → F.Double
notify F time_threshold now = F.add now time_threshold
