-- ===== src/Scheduler/Sfq/Dispatch.antt =====
-- What `SFQ::dispatchNext` does, on every branch.
use pfssim.Base.{
  ℕ, ◌<◌, ◌≡◌, refl, ap, ◌⊎◌, inl, inr, negsuc, pos, true, false, List, [], ◌∷◌, Option, none, some,
  Arith, IsOrder, Bool-cases, length, reaches,
}
use pfssim.Scheduler.Sfq.{Job, Sfq, min_index, serve, serve_index, dispatch_next}
use pfssim.Scheduler.Sfq.Pick.{NotBefore, Picks, min_index-Picks}

module _ (F : Arith) (o : IsOrder F) {A : Type 0} (q : Sfq F A) where
  -- The outcomes of a dispatch: nothing happens, since as many packets are outstanding as the
  -- degree allows or since every queue is empty, or the first job of a queue is served whose start
  -- tag is below that of no other first job.
  abbrev pub Dispatches : Type 0
  Dispatches =
      ((dispatch_next F q ≡ (none, q))
        × ((reaches (length q.os_q) q.degree ≡ true) ⊎ ((j : ℕ) → j < q.app_num → q.wait_q j ≡ [])))
      ⊎ ((i : ℕ) × (job : Job F A) × (js : List (Job F A)) × (q.wait_q i ≡ job ∷ js)
          × (i < q.app_num)
          × ((j : ℕ) → j < q.app_num → NotBefore F o q job.stag j)
          × (reaches (length q.os_q) q.degree ≡ false)
          × (dispatch_next F q ≡ serve F q i (job ∷ js)))

  dispatch_full : reaches (length q.os_q) q.degree ≡ true → dispatch_next F q ≡ (none, q)
  unfolding dispatch_next
  dispatch_full h = rw h refl

  dispatch_picked :
      (r : Option ℕ)
      → reaches (length q.os_q) q.degree ≡ false
      → min_index F q ≡ r
      → Picks F o q r
      → Dispatches
  unfolding dispatch_next
  dispatch_picked none h e p = inl (rw (h, e, serve_index) refl, inr p)
  dispatch_picked (some i) h e (job, js, front, below, least) =
      inr (i, job, js, front, below, least, h, rw (h, e, serve_index) (ap (serve F q i) front))

  pub dispatch_next_lem : q.startpos < q.app_num → Dispatches
  dispatch_next_lem v = elim (Bool-cases (reaches (length q.os_q) q.degree)) [
    | inl full ↦ inl (dispatch_full full, inl full)
    | inr room ↦ dispatch_picked (min_index F q) room refl (min_index-Picks F o q v)
  ]

  -- With a degree that is not negative and a start position in the array, `dispatchNext` returns NULL and
  -- changes nothing only where the outstanding packets reach the degree or every wait queue is empty;
  -- otherwise it serves the first job of a queue whose start tag is not above that of the first job of
  -- any other queue. A negative degree, which IQueue.h reads as no control, is left out.
  pub dispatch_next-cases : (d : ℕ) → q.degree ≡ pos d → q.startpos < q.app_num → Dispatches
  dispatch_next-cases d e v = dispatch_next_lem v

  -- A negative degree, which IQueue.h reads as no control of the degree, stops `SFQ` for good: no
  -- dispatch returns a packet.
  pub dispatch_next_negative : (d : ℕ) → q.degree ≡ negsuc d → dispatch_next F q ≡ (none, q)
  dispatch_next_negative d e = dispatch_full (rw e refl)
