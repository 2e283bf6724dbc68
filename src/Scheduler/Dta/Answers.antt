-- ===== src/Scheduler/Dta/Answers.antt =====
-- `dispatchNext` meets no error (omnetpp/scheduler/DTA/DTA.cc) in a state whose requests and slots are in order.
use pfssim.Base.{
  ℕ, zero, suc, ◌+◌, ◌≡◌, subst, inl, inr, true, ◌&&◌, not, Option, none, some, List, [], ◌∷◌, ◌==◌,
  Bool-cases, All, front?, Arith, is_nil, ltb, leb,
}
use pfssim.Packet.{GPacket}
use pfssim.Scheduler.Fifo.{Fifo}
use pfssim.Scheduler.Dta.Inner.{Table, has, take_out, first_waiting}
use pfssim.Scheduler.Dta.{
  Request, Dta, request_of, set_edf, set_lr, Result, is_urgent, take_lagged, take_with, take_first,
  try_to_dispatch, or_next, dispatch_from, dispatch_next,
}
use pfssim.Scheduler.Dta.Skip.{
  IsInner, Waits, from_waiting, first_waiting-from_waiting, first_waiting-Waits,
}
use pfssim.Scheduler.Dta.Ready.{IsKnown, IsDone, deliver-IsDone}

module _ (F : Arith) (trunc : F.Double → ℕ) where
  -- The queues of the servers, with the packets of their lists known.
  abbrev pub IsReadyQueue : Table GPacket → Table (Request F) → Fifo GPacket → Type 0
  IsReadyQueue m requests f =
      IsInner f × All (λ (p : GPacket). has m p.id ≡ true → IsKnown F trunc m requests p) f.wait_q

  abbrev pub IsReady : Dta F → Type 0
  IsReady q =
      (i : ℕ)
      → IsReadyQueue q.waiting_subreqs q.req_list (q.edf_q i).queue
        × IsReadyQueue q.waiting_subreqs q.req_list (q.lr_q i)

  from_waiting-All :
      (m : Table GPacket) (P : GPacket → Type 0) (ps : List GPacket)
      → All P ps
      → All P (from_waiting m ps)
  unfolding from_waiting
  from_waiting-All m P [] h = tt
  from_waiting-All m P (p ∷ ps) h = elim (Bool-cases (has m p.id)) [
    | inl e ↦ rw e h
    | inr e ↦ rw e (from_waiting-All m P ps h.1)
  ]

  -- What the search for a waiting packet comes to.
  abbrev Found : Table GPacket → Table (Request F) → Option (Option GPacket × Fifo GPacket) → Type 0
  Found m requests none = ⊥
  Found m requests (some (none, f)) = IsReadyQueue m requests f
  Found m requests (some (some p, f)) = IsKnown F trunc m requests p

  front-Found :
      (m : Table GPacket) (requests : Table (Request F)) (f : Fifo GPacket) (ps : List GPacket)
      → IsReadyQueue m requests (record f { wait_q = ps })
      → Waits m (some (front? ps, record f { wait_q = ps }))
      → Found m requests (some (front? ps, record f { wait_q = ps }))
  front-Found m requests f [] h w = h
  front-Found m requests f (p ∷ ps) h w = h.1.0 w

  first_waiting-Found :
      (m : Table GPacket) (requests : Table (Request F)) (f : Fifo GPacket)
      → IsReadyQueue m requests f
      → Found m requests (first_waiting m f)
  first_waiting-Found m requests f h =
      let e = first_waiting-from_waiting m f h.0 in
      let w : Waits m (first_waiting m f) = first_waiting-Waits m f in
      rw e (
        front-Found m requests f (from_waiting m f.wait_q) (h.0, from_waiting-All m _ f.wait_q h.1)
          (subst (Waits m) e w))

  -- A call gives out a packet, or comes to nothing in a state that is in order.
  abbrev pub Answers : Result F → Type 0
  Answers none = ⊥
  Answers (some (none, q)) = IsReady q
  Answers (some (some p, q)) = Unit

  done-Answers : (o : Result F) → IsDone F trunc o → Answers o
  done-Answers (some (some p, q)) h = tt
  done-Answers (some (none, q)) h = absurd h
  done-Answers none h = h

  take_lagged-Answers :
      (sid : ℕ) (p : GPacket) (f : Fifo GPacket) (q : Dta F)
      (o : Option (Option GPacket × Fifo GPacket))
      → IsKnown F trunc q.waiting_subreqs q.req_list p
      → Found q.waiting_subreqs q.req_list o
      → Answers (take_lagged F trunc sid p f q o)
  unfolding take_lagged
  take_lagged-Answers sid p f q none k h = h
  take_lagged-Answers sid p f q (some (none, g)) k h =
      done-Answers _ (deliver-IsDone F trunc p (set_edf F sid (take_out p f) (set_lr F sid g q)) k)
  take_lagged-Answers sid p f q (some (some p', g)) k h =
      done-Answers _
        (deliver-IsDone F trunc p' (set_lr F sid (take_out p' g) (set_edf F sid f q)) h)

  take_with-Answers :
      (now : F.Double) (sid : ℕ) (p : GPacket) (f : Fifo GPacket) (q : Dta F)
      → IsReady q
      → IsKnown F trunc q.waiting_subreqs q.req_list p
      → Answers (take_with F trunc now sid p f q (q.req_list (request_of F p)))
  unfolding take_with
  take_with-Answers now sid p f q ready (r, b, e, k) = elim (Bool-cases (is_urgent F now sid r q)) [
    | inl u ↦
        rw (e, u)
          (done-Answers _ (deliver-IsDone F trunc p (set_edf F sid (take_out p f) q) (r, b, e, k)))
    | inr u ↦
        rw (e, u)
          (take_lagged-Answers sid p f q _ (r, b, e, k)
            (first_waiting-Found q.waiting_subreqs q.req_list (q.lr_q sid) (ready sid).1))
  ]

  set_edf-IsReady :
      (sid : ℕ) (f : Fifo GPacket) (q : Dta F)
      → IsReady q
      → IsReadyQueue q.waiting_subreqs q.req_list f
      → IsReady (set_edf F sid f q)
  set_edf-IsReady sid f q ready h i = elim (Bool-cases (i == sid)) [
    | inl e ↦ rw e (h, (ready i).1)
    | inr e ↦ rw e (ready i)
  ]

  take_first-Answers :
      (now : F.Double) (sid : ℕ) (q : Dta F) (o : Option (Option GPacket × Fifo GPacket))
      → IsReady q
      → Found q.waiting_subreqs q.req_list o
      → Answers (take_first F trunc now sid q o)
  unfolding take_first
  take_first-Answers now sid q none ready h = h
  take_first-Answers now sid q (some (none, f)) ready h = set_edf-IsReady sid f q ready h
  take_first-Answers now sid q (some (some p, f)) ready h = take_with-Answers now sid p f q ready h

  try_to_dispatch-Answers :
      (now : F.Double) (sid : ℕ) (q : Dta F)
      → IsReady q
      → Answers (try_to_dispatch F trunc now sid q)
  unfolding try_to_dispatch
  try_to_dispatch-Answers now sid q ready =
      elim (Bool-cases (leb q.degree (q.degrees sid) && ltb 0 q.degree)) [
        | inl e ↦ rw e ready
        | inr e ↦ rw e (
            take_first-Answers now sid q _ ready
              (first_waiting-Found q.waiting_subreqs q.req_list (q.edf_q sid).queue (ready sid).0))
      ]

  or_next-Answers :
      (o : Result F) (k : Dta F → Result F)
      → Answers o
      → ((q : Dta F) → IsReady q → Answers (k q))
      → Answers (or_next F trunc o k)
  or_next-Answers none k h g = h
  or_next-Answers (some (none, q)) k h g = g q h
  or_next-Answers (some (some p, q)) k h g = h

  dispatch_from-Answers :
      (now : F.Double) (n i : ℕ) (q : Dta F) → IsReady q → Answers (dispatch_from F trunc now n i q)
  unfolding dispatch_from
  dispatch_from-Answers now zero i q ready = ready
  dispatch_from-Answers now (suc n) i q ready =
      elim (Bool-cases
        (not (is_nil (q.edf_q i).queue.wait_q) && ltb (q.degrees i) q.degree && ltb 0 q.degree)) [
          | inl e ↦ rw e (
              or_next-Answers (try_to_dispatch F trunc now i q)
                (dispatch_from F trunc now n (i + 1)) (try_to_dispatch-Answers now i q ready)
                (dispatch_from-Answers now n (i + 1)))
          | inr e ↦ rw e (dispatch_from-Answers now n (i + 1) q ready)
        ]

  -- Where every waiting packet in a queue is of a known request, whose ID fits into an `int` and whose slots, but that of the packet, name
  -- other packets that wait, `dispatchNext` ends without an error, and where it gives out nothing the state is as
  -- before in this respect. The inner queues have nothing outstanding and no limit.
  pub dispatch_next-Answers :
      (now : F.Double) (q : Dta F) → IsReady q → Answers (dispatch_next F trunc now q)
  unfolding dispatch_next
  dispatch_next-Answers now q ready = dispatch_from-Answers now q.ds_num 0 q ready
