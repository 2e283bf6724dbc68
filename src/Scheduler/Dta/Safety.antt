-- ===== src/Scheduler/Dta/Safety.antt =====
-- What `dispatchNext` gives out (omnetpp/scheduler/DTA/DTA.cc).
use pfssim.Base.{
  ℕ, zero, suc, ◌+◌, ◌-◌, ◌≡◌, refl, ap, ◌∙◌, inl, inr, true, ◌&&◌, not, Option, none, some,
  Bool-cases, Option-cases, update, Arith, is_nil, ltb, leb,
}
use pfssim.Packet.{GPacket}
use pfssim.Scheduler.Fifo.{Fifo}
use pfssim.Scheduler.Dta.Inner.{Table, has, insert, erase, take_out}
use pfssim.Scheduler.Dta.{
  Request, Dta, request_of, short_of, find_short, is_lagged, set_edf, set_lr, move_lagged,
  move_slot, move_slots, put_request, update_request, dispatch_update, Result, given, deliver,
  is_urgent, take_lagged, take_with, take_first, try_to_dispatch, or_next, dispatch_from,
  dispatch_next,
}
use pfssim.Scheduler.Dta.Skip.{Waits, first_waiting-Waits}

module _ (F : Arith) (trunc : F.Double → ℕ) where
  abbrev D : Type 0
  D = Dta F

  -- The maps of packets and the counts of the servers are those of another queue.
  abbrev pub Same : D → D → Type 0
  Same q q' =
      (q'.waiting_subreqs ≡ q.waiting_subreqs)
      × (q'.dispatched_subreqs ≡ q.dispatched_subreqs)
      × (q'.degrees ≡ q.degrees)

  abbrev Slots : D → Option (Request F × D) → Type 0
  Slots q none = Unit
  Slots q (some (r, q')) = Same q q'

  move_slot-Slots :
      (rid i : ℕ) (o : Option ℕ) (r : Request F) (q : D) → Slots q (move_slot F rid i o r q)
  unfolding move_slot move_lagged
  move_slot-Slots rid i none r q = (refl, refl, refl)
  move_slot-Slots rid i (some pid) r q = elim (Option-cases (q.waiting_subreqs pid)) [
    | inl e ↦ rw e tt
    | inr (p, e) ↦ rw e (refl, refl, refl)
  ]

  after_slot-Slots :
      (q : D) (o : Option (Request F × D)) (k : Request F → D → Option (Request F × D))
      → Slots q o
      → ((r : Request F) (q' : D) → Slots q' (k r q'))
      → Slots q (elim o [ none ↦ none | some (r, q') ↦ k r q' ])
  after_slot-Slots q none k h g = tt
  after_slot-Slots q (some (r, q')) k h g = onward (k r q') (g r q')
    where
      onward : (o : Option (Request F × D)) → Slots q' o → Slots q o
      onward none s = tt
      onward (some (r', q'')) (a, b, c) = (a ∙ h.0, b ∙ h.1, c ∙ h.2)

  move_slots-Slots : (rid n i : ℕ) (r : Request F) (q : D) → Slots q (move_slots F rid n i r q)
  unfolding move_slots
  move_slots-Slots rid zero i r q = (refl, refl, refl)
  move_slots-Slots rid (suc n) i r q =
      after_slot-Slots q _ (move_slots F rid n (i + 1))
        (move_slot-Slots rid i (r.waiting_subreqs i) r q) (move_slots-Slots rid n (i + 1))

  -- `p` waited, and is outstanding from then on, at one more of its server's.
  pub record Dispatched (q : D) (p : GPacket) (q' : D) : Type 0 where
    pub waited : has q.waiting_subreqs p.id ≡ true
    pub taken : q'.waiting_subreqs ≡ erase p.id q.waiting_subreqs
    pub outstanding : q'.dispatched_subreqs ≡ insert p.id p q.dispatched_subreqs
    pub counted : q'.degrees ≡ update q.degrees p.ds_id (q.degrees p.ds_id + 1)

  abbrev pub Gives : D → Result F → Type 0
  Gives q none = Unit
  Gives q (some (none, q')) = Same q q'
  Gives q (some (some p, q')) = Dispatched q p q'

  put_request-Gives :
      (rid : ℕ) (p : GPacket) (q q₁ : D) (o : Option (Request F × D))
      → Dispatched q p q₁
      → Slots q₁ o
      → Gives q (given F p (put_request F rid o))
  put_request-Gives rid p q q₁ none d s = tt
  put_request-Gives rid p q q₁ (some (r, q')) d (a, b, c) = record {
    waited = d.waited;
    taken = a ∙ d.taken;
    outstanding = b ∙ d.outstanding;
    counted = c ∙ d.counted;
  }

  update_request-Gives :
      (p : GPacket) (o : Option (Request F)) (q q₁ : D)
      → Dispatched q p q₁
      → Gives q (given F p (update_request F trunc p o q₁))
  unfolding update_request
  update_request-Gives p none q q₁ d = tt
  update_request-Gives p (some found) q q₁ d =
      let rid = short_of F p in
      let r = record found {
        waiting_ctr = found.waiting_ctr - 1;
        serving_ctr = found.serving_ctr + 1;
        waiting_subreqs = update found.waiting_subreqs p.ds_id none;
      } in
      elim (Bool-cases (is_lagged F trunc q₁ r)) [
        | inl e ↦ rw e (put_request-Gives rid p q q₁ _ d (move_slots-Slots rid q₁.ds_num 0 r q₁))
        | inr e ↦ rw e (put_request-Gives rid p q q₁ (some (r, q₁)) d (refl, refl, refl))
      ]

  deliver-Gives :
      (p : GPacket) (q : D) → has q.waiting_subreqs p.id ≡ true → Gives q (deliver F trunc p q)
  unfolding deliver dispatch_update
  deliver-Gives p q w =
      update_request-Gives p (find_short F q.req_list p) q _
        (record { waited = w; taken = refl; outstanding = refl; counted = refl })

  Same-Gives : (q q₁ : D) (o : Result F) → Same q q₁ → Gives q₁ o → Gives q o
  Same-Gives q q₁ none s h = tt
  Same-Gives q q₁ (some (none, q')) (a, b, c) (a', b', c') = (a' ∙ a, b' ∙ b, c' ∙ c)
  Same-Gives q q₁ (some (some p, q')) (a, b, c) d = record {
    waited = rw (← a) d.waited;
    taken = d.taken ∙ ap (λ (m : Table GPacket). erase p.id m) a;
    outstanding = d.outstanding ∙ ap (λ (m : Table GPacket). insert p.id p m) b;
    counted = d.counted ∙ ap (λ (f : ℕ → ℕ). update f p.ds_id (f p.ds_id + 1)) c;
  }

  take_lagged-Gives :
      (sid : ℕ) (p : GPacket) (f : Fifo GPacket) (q : D)
      (o : Option (Option GPacket × Fifo GPacket))
      → has q.waiting_subreqs p.id ≡ true
      → Waits q.waiting_subreqs o
      → Gives q (take_lagged F trunc sid p f q o)
  unfolding take_lagged
  take_lagged-Gives sid p f q none w h = tt
  take_lagged-Gives sid p f q (some (none, g)) w h =
      Same-Gives q _ _ (refl, refl, refl)
        (deliver-Gives p (set_edf F sid (take_out p f) (set_lr F sid g q)) w)
  take_lagged-Gives sid p f q (some (some p', g)) w h =
      Same-Gives q _ _ (refl, refl, refl)
        (deliver-Gives p' (set_lr F sid (take_out p' g) (set_edf F sid f q)) h)

  take_with-Gives :
      (now : F.Double) (sid : ℕ) (p : GPacket) (f : Fifo GPacket) (q : D) (o : Option (Request F))
      → has q.waiting_subreqs p.id ≡ true
      → Gives q (take_with F trunc now sid p f q o)
  unfolding take_with
  take_with-Gives now sid p f q none w = tt
  take_with-Gives now sid p f q (some r) w = elim (Bool-cases (is_urgent F now sid r q)) [
    | inl e ↦
        rw e
          (Same-Gives q _ _ (refl, refl, refl) (deliver-Gives p (set_edf F sid (take_out p f) q) w))
    | inr e ↦
        rw e (take_lagged-Gives sid p f q _ w (first_waiting-Waits q.waiting_subreqs (q.lr_q sid)))
  ]

  take_first-Gives :
      (now : F.Double) (sid : ℕ) (q : D) (o : Option (Option GPacket × Fifo GPacket))
      → Waits q.waiting_subreqs o
      → Gives q (take_first F trunc now sid q o)
  unfolding take_first
  take_first-Gives now sid q none h = tt
  take_first-Gives now sid q (some (none, f)) h = (refl, refl, refl)
  take_first-Gives now sid q (some (some p, f)) h =
      take_with-Gives now sid p f q (q.req_list (request_of F p)) h

  try_to_dispatch-Gives :
      (now : F.Double) (sid : ℕ) (q : D) → Gives q (try_to_dispatch F trunc now sid q)
  unfolding try_to_dispatch
  try_to_dispatch-Gives now sid q =
      elim (Bool-cases (leb q.degree (q.degrees sid) && ltb 0 q.degree)) [
        | inl e ↦ rw e (refl, refl, refl)
        | inr e ↦ rw e (
            take_first-Gives now sid q _
              (first_waiting-Waits q.waiting_subreqs (q.edf_q sid).queue))
      ]

  or_next-Gives :
      (q : D) (o : Result F) (k : D → Result F)
      → Gives q o
      → ((q' : D) → Gives q' (k q'))
      → Gives q (or_next F trunc o k)
  or_next-Gives q none k h g = tt
  or_next-Gives q (some (none, q')) k h g = Same-Gives q q' (k q') h (g q')
  or_next-Gives q (some (some p, q')) k h g = h

  dispatch_from-Gives :
      (now : F.Double) (n i : ℕ) (q : D) → Gives q (dispatch_from F trunc now n i q)
  unfolding dispatch_from
  dispatch_from-Gives now zero i q = (refl, refl, refl)
  dispatch_from-Gives now (suc n) i q =
      elim (Bool-cases
        (not (is_nil (q.edf_q i).queue.wait_q) && ltb (q.degrees i) q.degree && ltb 0 q.degree)) [
          | inl e ↦ rw e (
              or_next-Gives q (try_to_dispatch F trunc now i q)
                (dispatch_from F trunc now n (i + 1)) (try_to_dispatch-Gives now i q)
                (dispatch_from-Gives now n (i + 1)))
          | inr e ↦ rw e (dispatch_from-Gives now n (i + 1) q)
        ]

  -- A packet that `dispatchNext` gives out was waiting; it waits no longer, and is outstanding and counted for
  -- its server from then on. All other packets wait or are outstanding as before; where nothing is given out, all are.
  -- An error that ends the program gives out nothing.
  pub dispatch_next-Gives : (now : F.Double) (q : D) → Gives q (dispatch_next F trunc now q)
  unfolding dispatch_next
  dispatch_next-Gives now q = dispatch_from-Gives now q.ds_num 0 q
