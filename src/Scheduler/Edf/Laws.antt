-- ===== src/Scheduler/Edf/Laws.antt =====
-- `EDF` fills the contract of a queue, and serves the earliest deadline first.
use pfssim.Base.{
  ◌+◌, ◌≡◌, refl, subst, inl, inr, Bool, not, List, ◌∷◌, ◌++◌, Option, none, some, Arith, IsOrder,
  count_by,
}
use pfssim.Packet.{BPacket}
use pfssim.Scheduler.IQueue.{Contract, Call, pushed, run, run_conserves, accepted}
use pfssim.Scheduler.Fifo
use pfssim.Scheduler.Fifo.Laws.{fifo_dispatch_moves, fifo_pop_moves, dispatch_next-cases}
use pfssim.Scheduler.Edf.{
  Edf, deadline, push_wait_q, dispatch_next, pop_os_q, edf_queue,
  get_num_reqs_in_wait_q_within_deadline,
}
use pfssim.Scheduler.Edf.Sorted.{
  IsSortedBy, NoneBelow, filter_by, insert_by-counts, insert_by-IsSortedBy, insert_by-filter,
  count_early-count_by,
}

module _ (F : Arith) (o : IsOrder F) {A : Type 0} (b : BPacket A) (risetime : A → F.Double) where
  abbrev pub IsOrdered : Edf F A → Type 0
  IsOrdered q = IsSortedBy F (deadline F b risetime q) q.queue.wait_q

  -- `pushWaitQ` on a sorted queue puts the packet behind every one whose deadline is not later,
  -- before all whose deadline is, and moves none of them.
  pub push_wait_q_place :
      (job : A) (q : Edf F A)
      → IsOrdered q
      → let dl = deadline F b risetime q in
        (push_wait_q F b risetime job q).queue.wait_q
        ≡ filter_by (λ y. not (F.lt (dl job) (dl y))) q.queue.wait_q
          ++ job ∷ filter_by (λ y. F.lt (dl job) (dl y)) q.queue.wait_q
  unfolding push_wait_q
  push_wait_q_place job q s = insert_by-filter F o (deadline F b risetime q) job q.queue.wait_q s

  -- On a sorted queue the count that stops at the first later deadline is the number of all waiting
  -- packets whose deadline is before the given one.
  pub within_deadline_count :
      (d : F.Double) (q : Edf F A)
      → IsOrdered q
      → get_num_reqs_in_wait_q_within_deadline F b risetime d q
        ≡ count_by (λ y. F.lt (deadline F b risetime q y) d) q.queue.wait_q
  unfolding get_num_reqs_in_wait_q_within_deadline
  within_deadline_count d q s =
      count_early-count_by F o (deadline F b risetime q) d q.queue.wait_q s

  -- A dispatched packet's deadline is no later than that of any packet left waiting.
  abbrev pub Earliest : (A → F.Double) → Option A × Edf F A → Type 0
  Earliest key (none, q) = Unit
  Earliest key (some a, q) = NoneBelow F key (key a) q.queue.wait_q

  dispatch_next_lem :
      (q : Edf F A)
      → IsOrdered q
      → Earliest (deadline F b risetime q) (dispatch_next F b risetime q)
        × IsOrdered (dispatch_next F b risetime q).1
  unfolding dispatch_next
  dispatch_next_lem q s = elim (dispatch_next-cases q.queue) [
    | inl e ↦ rw e (tt, s)
    | inr (x, rest, front, e) ↦ rw e (subst (IsSortedBy F (deadline F b risetime q)) front s)
  ]

  push_wait_q-IsOrdered :
      (job : A) (q : Edf F A) → IsOrdered q → IsOrdered (push_wait_q F b risetime job q)
  unfolding push_wait_q
  push_wait_q-IsOrdered job q s =
      insert_by-IsSortedBy F o (deadline F b risetime q) job q.queue.wait_q s

  -- `EDF` keeps the contract of `IQueue` for all packets, in the states where its wait queue is in
  -- the order of the deadlines.
  pub edf_contract : Contract (edf_queue F b risetime)
  unfolding push_wait_q dispatch_next pop_os_q Fifo.pop_os_q
  edf_contract = record {
    Valid = IsOrdered;
    Accepts = λ a. Unit {0};
    push-Valid = λ a q ok s. push_wait_q-IsOrdered a q s;
    dispatch-Valid = λ q s. (dispatch_next_lem q s).1;
    pop-Valid = λ id q s. s;
    push_moves =
        λ p a q ok s. (insert_by-counts F (deadline F b risetime q) p a q.queue.wait_q, refl);
    dispatch_moves = λ p q s. fifo_dispatch_moves b p q.queue;
    pop_moves = λ p id q s. fifo_pop_moves b p id q.queue;
  }

  pub IsOrdered-Valid : (q : Edf F A) → IsOrdered q → edf_contract.Valid q
  unfolding edf_contract
  IsOrdered-Valid q s = s

  pub Accepts-any : (p : A) → edf_contract.Accepts p
  unfolding edf_contract
  Accepts-any p = tt

  -- After any calls from a sorted queue, no packet is lost or made up, and the next dispatch, if it
  -- returns a packet, returns one whose deadline is no later than that of any packet left waiting.
  pub edf_run :
      (p : A → Bool) (q : Edf F A) (cs : List (Call A))
      → IsOrdered q
      → let out = run (edf_queue F b risetime) q cs in
        (count_by p q.queue.wait_q + count_by p q.queue.os_q + count_by p (pushed cs)
          ≡ count_by p out.popped
            + count_by p out.state.queue.wait_q
            + count_by p out.state.queue.os_q)
        × Earliest (deadline F b risetime out.state) (dispatch_next F b risetime out.state)
  unfolding edf_contract
  edf_run p q cs s =
      let (kept, sorted) =
        run_conserves (edf_queue F b risetime) edf_contract p q cs (accepted cs) s in
      (kept, (dispatch_next_lem (run (edf_queue F b risetime) q cs).state sorted).0)
