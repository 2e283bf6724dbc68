-- ===== src/Scheduler/Sfq/Laws.antt =====
-- `SFQ` fills the contract of a queue, and its virtual time never goes back.
use pfssim.Base.{
  ℕ, ◌+◌, ◌<◌, ◌≡◌, refl, ap, sym, subst, ◌∙◌, inl, inr, Bool, true, false, List, [], ◌∷◌, ◌++◌,
  Option, none, some, arith, All, Arith, IsTagArith, to_list, count_by, count_by-map, count_by-nil,
  count_by-remove, find_by, remove_by,
}
use pfssim.Packet.{BPacket}
use pfssim.Scheduler.IQueue.{Contract, Call, pushed, run, run_conserves}
use pfssim.Scheduler.Sfq.{
  Job, Sfq, retag, serve, dispatch_next, new_job, push_wait_q, pop_os_q, packets, sfq_queue,
  job_has_id, pkt_of,
}
use pfssim.Scheduler.Sfq.Counts.{
  count_jobs, packets-update, count_jobs-append, count_jobs-retag, count_jobs-cons, count_jobs-one,
}
use pfssim.Scheduler.Sfq.Dispatch.{dispatch_next_lem}
use pfssim.Scheduler.Sfq.Tags.{IsTagged, push_wait_q-IsTagged, dispatch_next-IsTagged}

module _ (F : Arith) (o : IsTagArith F) {A : Type 0} (b : BPacket A) where
  open o use {order}

  push_moves :
      (p : A → Bool) (pkt : A) (q : Sfq F A)
      → b.app pkt < q.app_num
      → count_by p (packets (push_wait_q F b pkt q).wait_q q.app_num)
        ≡ count_by p (packets q.wait_q q.app_num) + count_by p (pkt ∷ [])
  unfolding push_wait_q
  push_moves p pkt q h = omega (
    arith,
    packets-update p q.wait_q (b.app pkt) (q.wait_q (b.app pkt) ++ new_job F b q pkt ∷ []) q.app_num
        h,
    count_jobs-append p (q.wait_q (b.app pkt)) (new_job F b q pkt ∷ []),
    count_jobs-one p (new_job F b q pkt),
  )

  serve_moves :
      (p : A → Bool) (q : Sfq F A) (i : ℕ) (job : Job F A) (js : List (Job F A))
      → q.wait_q i ≡ job ∷ js
      → i < q.app_num
      → let (r, q') = serve F q i (job ∷ js) in
        (count_by p (packets q.wait_q q.app_num)
          ≡ count_by p (packets q'.wait_q q.app_num) + count_by p (to_list r))
        × (count_jobs p q'.os_q ≡ count_jobs p q.os_q + count_by p (to_list r))
        × (q'.app_num ≡ q.app_num)
  unfolding serve
  serve_moves p q i job js front below = (
    omega (
      arith,
      packets-update p q.wait_q i (retag F job js) q.app_num below,
      count_jobs-retag p job js,
      count_jobs-cons p job js,
      ap (count_jobs p) front,
    ),
    omega (arith, count_jobs-append p q.os_q (job ∷ []), count_jobs-one p job),
    refl,
  )

  dispatch_moves :
      (p : A → Bool) (q : Sfq F A)
      → IsTagged F q
      → let (r, q') = dispatch_next F q in
        (count_by p (packets q.wait_q q.app_num)
          ≡ count_by p (packets q'.wait_q q.app_num) + count_by p (to_list r))
        × (count_jobs p q'.os_q ≡ count_jobs p q.os_q + count_by p (to_list r))
        × (q'.app_num ≡ q.app_num)
  dispatch_moves p q t = elim (dispatch_next_lem F order q t.start_in) [
    | inl (e, why) ↦ rw e (omega (arith, count_by-nil p), omega (arith, count_by-nil p), refl)
    | inr (i, job, js, front, below, least, room, e) ↦ rw e (serve_moves p q i job js front below)
  ]

  count-pkt_of :
      (p : A → Bool) (r : Option (Job F A))
      → count_by (λ j. p j.pkt) (to_list r) ≡ count_by p (to_list (pkt_of F b r))
  unfolding count_by
  count-pkt_of p none = refl
  count-pkt_of p (some j) = refl

  pop_moves :
      (p : A → Bool) (id : ℕ) (q : Sfq F A)
      → let (r, q') = pop_os_q F b id q in
        count_jobs p q.os_q ≡ count_jobs p q'.os_q + count_by p (to_list r)
  unfolding pop_os_q count_jobs
  pop_moves p id q =
      let t = job_has_id F b id in
      omega (
        arith,
        count_by-map p (λ (j : Job F A). j.pkt) q.os_q,
        count_by-map p (λ (j : Job F A). j.pkt) (remove_by t q.os_q),
        count_by-remove (λ j. p j.pkt) t q.os_q,
        count-pkt_of p (find_by t q.os_q),
      )

  -- Tagged states that were reached from one with the same applications and virtual time `v`.
  abbrev Since : ℕ → F.Double → Sfq F A → Type 0
  Since n v q = IsTagged F q × (q.app_num ≡ n) × (F.lt q.vtime v ≡ false)

  dispatch-Since :
      (n : ℕ) (v : F.Double) (q : Sfq F A) → Since n v q → Since n v (dispatch_next F q).1
  dispatch-Since n v q (t, e, later) =
      let (t', forward) = dispatch_next-IsTagged F o q t in
      (
        t',
        (dispatch_moves (λ a. true) q t).2 ∙ e,
        order.nlt_trans v q.vtime (dispatch_next F q).1.vtime later forward,
      )

  push-Since :
      (n : ℕ) (v : F.Double) (a : A) (q : Sfq F A)
      → b.app a < n
      → Since n v q
      → Since n v (push_wait_q F b a q)
  unfolding push_wait_q
  push-Since n v a q ok s =
      (push_wait_q-IsTagged F o b a q (subst (λ k. b.app a < k) (sym s.1) ok) s.0, s.1, s.2)

  pop-IsTagged : (id : ℕ) (q : Sfq F A) → IsTagged F q → IsTagged F (pop_os_q F b id q).1
  unfolding pop_os_q
  pop-IsTagged id q t = record {
    start_in = t.start_in;
    outside = t.outside;
    weighted = t.weighted;
    chained = t.chained;
  }

  dispatch_all :
      (p : A → Bool) (q : Sfq F A)
      → IsTagged F q
      → let (r, q') = dispatch_next F q in
        (count_by p (packets q.wait_q q.app_num)
          ≡ count_by p (packets q'.wait_q q'.app_num) + count_by p (to_list r))
        × (count_jobs p q'.os_q ≡ count_jobs p q.os_q + count_by p (to_list r))
  dispatch_all p q t =
      let (r, q') = dispatch_next F q in
      let (waits, serves, same) = dispatch_moves p q t in
      (
        subst
            (λ k.
              count_by p (packets q.wait_q q.app_num)
              ≡ count_by p (packets q'.wait_q k) + count_by p (to_list r))
            (sym same) waits,
        serves,
      )

  sfq_contract : (n : ℕ) (v : F.Double) → Contract (sfq_queue F b)
  unfolding count_jobs push_wait_q pop_os_q
  sfq_contract n v = record {
    Valid = Since n v;
    Accepts = λ a. b.app a < n;
    push-Valid = λ a q ok s. push-Since n v a q ok s;
    dispatch-Valid = λ q s. dispatch-Since n v q s;
    pop-Valid = λ id q s. (pop-IsTagged id q s.0, s.1, s.2);
    push_moves = λ p a q ok s. (push_moves p a q (subst (λ k. b.app a < k) (sym s.1) ok), refl);
    dispatch_moves = λ p q s. dispatch_all p q s.0;
    pop_moves = λ p id q s. (refl, pop_moves p id q);
  }

  -- Over any calls on packets of known applications, from a state whose tags are in order, no packet
  -- is lost or made up, the tags stay in order, and the virtual time does not go back.
  pub sfq_run :
      (p : A → Bool) (q : Sfq F A) (cs : List (Call A))
      → All (λ a. b.app a < q.app_num) (pushed cs)
      → IsTagged F q
      → let out = run (sfq_queue F b) q cs in
        (count_by p (packets q.wait_q q.app_num) + count_jobs p q.os_q + count_by p (pushed cs)
          ≡ count_by p out.popped
            + count_by p (packets out.state.wait_q out.state.app_num)
            + count_jobs p out.state.os_q)
        × IsTagged F out.state
        × (F.lt out.state.vtime q.vtime ≡ false)
  unfolding sfq_contract
  sfq_run p q cs known t =
      let (kept, since) =
        run_conserves (sfq_queue F b) (sfq_contract q.app_num q.vtime) p q cs known
          (t, refl, order.lt_irrefl q.vtime) in
      (kept, since.0, since.2)
