-- ===== src/Scheduler/Avatar/Laws.antt =====
-- AVATAR (omnetpp/scheduler/I2L/AVATAR.cc) keeps the contract of a queue, and lets overdue packets
-- pass.
use pfssim.Base.{
  ℕ, ◌+◌, ◌≡◌, ◌≢◌, ◌∙◌, refl, inl, inr, Bool, true, false, Option, none, some, List, ◌==◌,
  Bool-cases, Arith, IsOrder, negsuc, [], ◌∷◌, count_by, count_by-nil, to_list, arith,
}
use pfssim.Packet.{BPacket}
use pfssim.Scheduler.IQueue.{Contract}
use pfssim.Scheduler.Fifo as Q
use pfssim.Scheduler.Edf
use pfssim.Scheduler.Edf.{Edf, edf_queue, get_num_reqs_in_wait_q_within_deadline, count_early}
use pfssim.Scheduler.Edf.Laws.{edf_contract, IsOrdered, IsOrdered-Valid, Accepts-any}
use pfssim.Scheduler.Avatar.{
  Avatar, tried, may_dispatch, dispatch_next, push_wait_q, finished, pop_os_q, avatar_queue,
}

module _ (F : Arith) (o : IsOrder F) {A : Type 0} (b : BPacket A) (risetime : A → F.Double)
    (ratio : F.Double) where
  abbrev edf : Contract (edf_queue F b risetime)
  edf = edf_contract F o b risetime

  -- What a dispatch owes, of the queue that AVATAR stands on.
  Moved : Avatar F A → Option A × Avatar F A → Type 0
  Moved a (r, a') =
      edf.Valid a'.queue
      × ((p : A → Bool)
          → (count_by p a.queue.queue.wait_q
              ≡ count_by p a'.queue.queue.wait_q + count_by p (to_list r))
            × (count_by p a'.queue.queue.os_q
                ≡ count_by p a.queue.queue.os_q + count_by p (to_list r)))

  tried-Moved :
      (a : Avatar F A) (r : Option A) (q : Edf F A)
      → Moved a (r, record a { queue = q })
      → Moved a (tried F b risetime ratio a (r, q))
  unfolding Moved tried
  tried-Moved a none q h = h
  tried-Moved a (some p) q h = h

  dispatch_next-Moved :
      (a : Avatar F A) → edf.Valid a.queue → Moved a (dispatch_next F b risetime ratio a)
  unfolding dispatch_next Moved
  dispatch_next-Moved a v = elim (Bool-cases (may_dispatch F b risetime ratio a)) [
    | inl e ↦ rw e (
        tried-Moved a (Edf.dispatch_next F b risetime a.queue).0
          (Edf.dispatch_next F b risetime a.queue).1
          (edf.dispatch-Valid a.queue v, λ p. edf.dispatch_moves p a.queue v))
    | inr e ↦ rw e (v, λ p. (omega (arith, count_by-nil p), omega (arith, count_by-nil p)))
  ]

  -- What a pop owes.
  Finished : Avatar F A → Option A × Avatar F A → Type 0
  Finished a (r, a') =
      edf.Valid a'.queue
      × ((p : A → Bool)
          → (count_by p a'.queue.queue.wait_q ≡ count_by p a.queue.queue.wait_q)
            × (count_by p a.queue.queue.os_q
                ≡ count_by p a'.queue.queue.os_q + count_by p (to_list r)))

  finished-Finished :
      (a : Avatar F A) (r : Option A) (q : Edf F A)
      → Finished a (r, record a { queue = q })
      → Finished a (finished F b risetime ratio a (r, q))
  unfolding Finished finished
  finished-Finished a none q h = h
  finished-Finished a (some p) q h = h

  pop_os_q-Finished :
      (id : ℕ) (a : Avatar F A) → edf.Valid a.queue → Finished a (pop_os_q F b risetime ratio id a)
  unfolding pop_os_q Finished
  pop_os_q-Finished id a v =
      finished-Finished a (Edf.pop_os_q F b risetime id a.queue).0
        (Edf.pop_os_q F b risetime id a.queue).1
        (edf.pop-Valid id a.queue v, λ p. edf.pop_moves p id a.queue v)

  -- AVATAR keeps the contract of `IQueue` for all packets, while its EDF queue is in order.
  pub avatar_contract : Contract (avatar_queue F b risetime ratio)
  unfolding push_wait_q Moved Finished
  avatar_contract = record {
    Valid = λ a. edf.Valid a.queue;
    Accepts = edf.Accepts;
    push-Valid = λ p a ok v. edf.push-Valid p a.queue ok v;
    dispatch-Valid = λ a v. (dispatch_next-Moved a v).0;
    pop-Valid = λ id a v. (pop_os_q-Finished id a v).0;
    push_moves = λ t p a ok v. edf.push_moves t p a.queue ok v;
    dispatch_moves = λ t a v. (dispatch_next-Moved a v).1 t;
    pop_moves = λ t id a v. (pop_os_q-Finished id a v).1 t;
  }

  pub avatar-Valid : (a : Avatar F A) → IsOrdered F o b risetime a.queue → avatar_contract.Valid a
  unfolding avatar_contract
  avatar-Valid a s = IsOrdered-Valid F o b risetime a.queue s

  pub avatar-Accepts : (p : A) → avatar_contract.Accepts p
  unfolding avatar_contract
  avatar-Accepts p = Accepts-any F o b risetime p

  no_degree : (q : Q.Fifo A) (d : ℕ) → q.degree ≡ negsuc d → Q.is_full q ≡ false
  no_degree q d e = ground (arith, e)

  is_zero-false : (n : ℕ) → n ≢ 0 → (n == 0) ≡ false
  is_zero-false n h = ground arith

  tried_result :
      (a : Avatar F A) (r : Option A) (q : Edf F A) → (tried F b risetime ratio a (r, q)).0 ≡ r
  unfolding tried
  tried_result a none q = refl
  tried_result a (some p) q = refl

  fifo_gives_front :
      (q : Q.Fifo A) (y : A) (ys : List A) (d : ℕ)
      → q.wait_q ≡ y ∷ ys
      → q.degree ≡ negsuc d
      → (Q.dispatch_next q).0 ≡ some y
  unfolding Q.dispatch_next
  fifo_gives_front q y ys d f e = rw (f, no_degree q d e) refl

  -- Where requests are late, the test lets a dispatch pass.
  late_gives_queue :
      (a : Avatar F A)
      → get_num_reqs_in_wait_q_within_deadline F b risetime a.now a.queue ≢ 0
      → (dispatch_next F b risetime ratio a).0 ≡ (Edf.dispatch_next F b risetime a.queue).0
  unfolding dispatch_next may_dispatch
  late_gives_queue a n =
      rw
        (
          is_zero-false (get_num_reqs_in_wait_q_within_deadline F b risetime a.now a.queue) n,
          tried_result a (Edf.dispatch_next F b risetime a.queue).0
              (Edf.dispatch_next F b risetime a.queue).1,
        )
        refl

  -- Where `getNumReqsInWaitQWithinDeadline` at the clock is not 0 and the degree of the EDF queue is
  -- negative, a dispatch gives out a packet whose deadline is before the clock, whatever the threshold.
  pub overdue_is_dispatched :
      (a : Avatar F A) (d : ℕ)
      → a.queue.queue.degree ≡ negsuc d
      → get_num_reqs_in_wait_q_within_deadline F b risetime a.now a.queue ≢ 0
      → (p : A) × ((dispatch_next F b risetime ratio a).0 ≡ some p)
        × (F.lt (Edf.deadline F b risetime a.queue p) a.now ≡ true)
  unfolding Edf.dispatch_next get_num_reqs_in_wait_q_within_deadline count_early
  overdue_is_dispatched a d e n = go a.queue.queue.wait_q refl
    where
      go :
          (w : List A)
          → a.queue.queue.wait_q ≡ w
          → (p : A) × ((dispatch_next F b risetime ratio a).0 ≡ some p)
            × (F.lt (Edf.deadline F b risetime a.queue p) a.now ≡ true)
      go [] f = absurd (n (rw f refl))
      go (y ∷ ys) f = elim (Bool-cases (F.lt (Edf.deadline F b risetime a.queue y) a.now)) [
        | inl k ↦ (y, late_gives_queue a n ∙ fifo_gives_front a.queue.queue y ys d f e, k)
        | inr k ↦ absurd (n (rw (f, k) refl))
      ]
