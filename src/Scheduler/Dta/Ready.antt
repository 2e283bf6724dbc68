-- ===== src/Scheduler/Dta/Ready.antt =====
-- A packet is given out without an error (omnetpp/scheduler/DTA/DTA.cc) where its request is known and the slots
-- of that are in order.
use pfssim.Base.{
  ℕ, ltb, ◌<◌, zero, suc, ◌+◌, ◌-◌, ◌<◌, ◌≡◌, ◌≢◌, refl, ap, ◌∙◌, inl, inr, Bool, true, false,
  Option, none, some, ◌==◌, ==_iff, if◌then◌else◌, Bool-cases, update, Arith, arith,
}
use pfssim.Packet.{GPacket}
use pfssim.Scheduler.Dta.Inner.{Table, has, insert, erase}
use pfssim.Scheduler.Dta.{
  Request, Dta, request_of, short_of, find_short, is_lagged, move_lagged, move_slot, move_slots,
  put_request, update_request, dispatch_update, Result, given, deliver,
}

unequal : (a b : ℕ) → a ≢ b → (a == b) ≡ false
unequal a b h = elim (Bool-cases (a == b)) [ inl e ↦ absurd (h ((==_iff a b).0 e)) | inr e ↦ e ]

erase-has :
    (m : Table GPacket) (id pid : ℕ)
    → (pid == id) ≡ false
    → has m pid ≡ true
    → has (erase id m) pid ≡ true
erase-has m id pid e w =
    ap
      (λ (b : Bool). elim (if b then none else m pid) as (λ o. Bool) [
        | none ↦ false
        | some a ↦ true
      ])
      e
    ∙ w

module _ (F : Arith) (trunc : F.Double → ℕ) where
  -- The slots of a request name waiting packets.
  abbrev pub SlotsWait : Request F → Table GPacket → Type 0
  SlotsWait r m = (j pid : ℕ) → r.waiting_subreqs j ≡ some pid → has m pid ≡ true

  abbrev Moved : Option (Request F × Dta F) → Type 0
  Moved none = ⊥
  Moved (some (r, q)) = SlotsWait r q.waiting_subreqs

  clear_slot :
      (r : Request F) (m : Table GPacket) (i : ℕ)
      → SlotsWait r m
      → SlotsWait (record r { waiting_subreqs = update r.waiting_subreqs i none }) m
  clear_slot r m i h j pid = elim (Bool-cases (j == i)) [
    | inl e ↦ rw e (λ x. absurd (cc x))
    | inr e ↦ rw e (h j pid)
  ]

  some_of :
      (o : Option GPacket)
      → elim o [ none ↦ false | some a ↦ true ] ≡ true
      → (p : GPacket) × (o ≡ some p)
  some_of none h = absurd (cc h)
  some_of (some p) h = (p, refl)

  move_slot-Moved :
      (rid i : ℕ) (o : Option ℕ) (r : Request F) (q : Dta F)
      → r.waiting_subreqs i ≡ o
      → SlotsWait r q.waiting_subreqs
      → Moved (move_slot F rid i o r q)
  unfolding move_slot move_lagged
  move_slot-Moved rid i none r q e h = h
  move_slot-Moved rid i (some pid) r q e h =
      let (p, f) = some_of (q.waiting_subreqs pid) (h i pid e) in
      rw f (clear_slot r q.waiting_subreqs i h)

  after_slot-Moved :
      (o : Option (Request F × Dta F)) (k : Request F → Dta F → Option (Request F × Dta F))
      → Moved o
      → ((r : Request F) (q : Dta F) → SlotsWait r q.waiting_subreqs → Moved (k r q))
      → Moved (elim o [ none ↦ none | some (r, q) ↦ k r q ])
  after_slot-Moved none k h g = h
  after_slot-Moved (some (r, q)) k h g = g r q h

  move_slots-Moved :
      (rid n i : ℕ) (r : Request F) (q : Dta F)
      → SlotsWait r q.waiting_subreqs
      → Moved (move_slots F rid n i r q)
  unfolding move_slots
  move_slots-Moved rid zero i r q h = h
  move_slots-Moved rid (suc n) i r q h =
      after_slot-Moved _ (move_slots F rid n (i + 1))
        (move_slot-Moved rid i (r.waiting_subreqs i) r q refl h) (move_slots-Moved rid n (i + 1))

  -- The request of a packet is known, and its slots, but that of the packet, name other packets that wait.
  abbrev pub IsKnown : Table GPacket → Table (Request F) → GPacket → Type 0
  IsKnown m requests p =
      (r : Request F) × (request_of F p < 2147483648)
      × (requests (request_of F p) ≡ some r)
      × ((j pid : ℕ)
          → r.waiting_subreqs j ≡ some pid
          → j ≢ p.ds_id
          → (pid ≢ p.id) × (has m pid ≡ true))

  erased-SlotsWait :
      (r : Request F) (m : Table GPacket) (p : GPacket)
      → ((j pid : ℕ)
          → r.waiting_subreqs j ≡ some pid
          → j ≢ p.ds_id
          → (pid ≢ p.id) × (has m pid ≡ true))
      → SlotsWait
          (record r {
            waiting_ctr = r.waiting_ctr - 1;
            serving_ctr = r.serving_ctr + 1;
            waiting_subreqs = update r.waiting_subreqs p.ds_id none;
          })
          (erase p.id m)
  erased-SlotsWait r m p h j pid = elim (Bool-cases (j == p.ds_id)) [
    | inl e ↦ rw e (λ x. absurd (cc x))
    | inr e ↦ rw e (λ x.
        let (ne, w) = h j pid x (λ f. absurd (ground (arith, e, f))) in
        erase-has m p.id pid (unequal pid p.id ne) w)
  ]

  abbrev pub IsDone : Result F → Type 0
  IsDone none = ⊥
  IsDone (some (none, q)) = ⊥
  IsDone (some (some p, q)) = Unit

  put_request-IsDone :
      (rid : ℕ) (p : GPacket) (o : Option (Request F × Dta F))
      → Moved o
      → IsDone (given F p (put_request F rid o))
  put_request-IsDone rid p none h = h
  put_request-IsDone rid p (some (r, q)) h = tt

  known_short :
      (m : Table (Request F)) (p : GPacket)
      → request_of F p < 2147483648
      → find_short F m p ≡ m (request_of F p)
  unfolding find_short
  known_short m p h =
      let e : short_of F p ≡ request_of F p = omega (arith, h) in
      let l : ltb (short_of F p) 2147483648 ≡ true = ground (arith, h) in rw l (ap m e)

  pub deliver-IsDone :
      (p : GPacket) (q : Dta F)
      → IsKnown q.waiting_subreqs q.req_list p
      → IsDone (deliver F trunc p q)
  unfolding deliver dispatch_update update_request
  deliver-IsDone p q (found, b, e, h) =
      let q₁ = record q {
        degrees = update q.degrees p.ds_id (q.degrees p.ds_id + 1);
        waiting_subreqs = erase p.id q.waiting_subreqs;
        dispatched_subreqs = insert p.id p q.dispatched_subreqs;
      } in
      let r = record found {
        waiting_ctr = found.waiting_ctr - 1;
        serving_ctr = found.serving_ctr + 1;
        waiting_subreqs = update found.waiting_subreqs p.ds_id none;
      } in
      let w = erased-SlotsWait found q.waiting_subreqs p h in
      elim (Bool-cases (is_lagged F trunc q₁ r)) [
        | inl l ↦
            rw (known_short q.req_list p b, e, l)
              (put_request-IsDone (short_of F p) p _
                (move_slots-Moved (short_of F p) q.ds_num 0 r q₁ w))
        | inr l ↦ rw (known_short q.req_list p b, e, l) tt
      ]
