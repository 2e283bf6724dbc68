-- ===== src/Scheduler/Fifo/Order.antt =====
-- The order in which `FIFO` serves its packets, and what its searches find.
use mathlib.Core.List.{append_assoc, append-nil}
use pfssim.Base.{
  ℕ, ◌≤◌, ◌≡◌, refl, sym, ap, ◌∙◌, inl, inr, true, false, List, [], ◌∷◌, ◌++◌, none, arith,
  count_by, find_by-remove_by_ne, find_by-remove_by_self, to_list, ◌==◌, if◌then◌else◌, Bool-cases,
  ==_iff, ==_refl,
}
use pfssim.Packet.{BPacket}
use pfssim.Scheduler.IQueue.{Call, pushes, dispatches, pops, pushed, run}
use pfssim.Scheduler.Fifo.{
  Fifo, push_wait_q, dispatch_front, dispatch_next, pop_os_q, query_job, has_id, fifo_queue,
}

module _ {A : Type 0} where
  dispatch_front_order :
      (xs : List A) (q : Fifo A)
      → xs ≡ q.wait_q
      → let (r, q') = dispatch_front xs q in to_list r ++ q'.wait_q ≡ q.wait_q
  unfolding dispatch_front
  dispatch_front_order [] q e = refl
  dispatch_front_order (x ∷ xs) q e = ground arith

module _ {A : Type 0} (b : BPacket A) where
  -- The packets that any calls dispatch, in order, and then those that still wait, are those that
  -- waited and then those that were pushed, in order: none overtakes another.
  pub fifo_run_order :
      (q : Fifo A) (cs : List (Call A))
      → let o = run (fifo_queue b) q cs in o.dispatched ++ o.state.wait_q ≡ q.wait_q ++ pushed cs
  unfolding run push_wait_q dispatch_next pop_os_q
  fifo_run_order q [] = sym (append-nil q.wait_q)
  fifo_run_order q (pushes a ∷ cs) =
      fifo_run_order (push_wait_q a q) cs ∙ append_assoc q.wait_q (a ∷ []) (pushed cs)
  fifo_run_order q (dispatches ∷ cs) =
      let (r, q') = dispatch_front q.wait_q q in
      let later = run (fifo_queue b) q' cs in
      append_assoc (to_list r) later.dispatched later.state.wait_q
      ∙ ap (◌++◌ (to_list r)) (fifo_run_order q' cs)
      ∙ sym (append_assoc (to_list r) q'.wait_q (pushed cs))
      ∙ ap (λ l. l ++ pushed cs) (dispatch_front_order q.wait_q q refl)
  fifo_run_order q (pops id ∷ cs) = fifo_run_order (pop_os_q b id q).1 cs

  has_id_ne :
      (id other : ℕ) (x : A)
      → (other == id) ≡ false
      → has_id b id x ≡ true
      → has_id b other x ≡ false
  has_id_ne id other x n hit = ground arith

  -- Where at most one outstanding packet has the ID, `popOsQ` returns what `queryJob` finds, and
  -- from then on `queryJob` finds nothing under that ID and what it found before under any other.
  pub query_job-pop_os_q :
      (id other : ℕ) (q : Fifo A)
      → count_by (has_id b id) q.os_q ≤ 1
      → let (r, q') = pop_os_q b id q in
        (r ≡ query_job b id q)
        × (query_job b other q' ≡ (if other == id then none else query_job b other q))
  unfolding pop_os_q query_job
  query_job-pop_os_q id other q h = (
    refl,
    elim (Bool-cases (other == id)) [
      | inl e ↦
          rw ((==_iff other id).0 e, ==_refl id) (find_by-remove_by_self (has_id b id) q.os_q h)
      | inr n ↦ rw n (
          find_by-remove_by_ne (has_id b other) (has_id b id) q.os_q
            (λ x hit. has_id_ne id other x n hit))
    ],
  )
