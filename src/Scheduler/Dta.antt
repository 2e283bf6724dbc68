-- ===== src/Scheduler/Dta.antt =====
-- omnetpp/scheduler/DTA/DTA.cc: a central queue for all data servers. Each server has a queue in the order of
-- the deadlines (DTAEDF.cc) and one of the packets whose requests lag behind (DTAFIFO.cc).
pub mod Inner
pub mod Pop
pub mod Refine
pub mod Skip
pub mod Safety
pub mod Ready
pub mod Answers
mod Tests
use pfssim.Base.{
  ℕ, zero, suc, ◌+◌, ◌-◌, ◌*◌, ◌/◌, ◌%◌, Bool, true, false, ◌&&◌, ◌||◌, not, Option, none, some,
  List, [], ◌∷◌, ◌==◌, ltb, leb, if◌then◌else◌, update, length, is_nil, Arith,
}
use pfssim.Packet.{GPacket, g_packet}
use pfssim.Client.Ids.{cid_offset}
use pfssim.Scheduler.Fifo as Q
use pfssim.Scheduler.Fifo.{Fifo}
use pfssim.Scheduler.Edf as E
use pfssim.Scheduler.Edf.{Edf}
use pfssim.Scheduler.Dta.Inner.{Table, insert, erase, refine, take_out, first_waiting}

module _ (F : Arith) where
  pub record Request : Type 0 where
    pub deadline : F.Double
    pub waiting_ctr : ℕ
    pub total_ctr : ℕ
    pub serving_ctr : ℕ
    pub served_ctr : ℕ
    -- `none` is -1.
    pub waiting_subreqs : ℕ → Option ℕ

  -- An array has an entry for each server; a time of -1 is `none`. A degree below 1, at which nothing is dispatched, is 0.
  pub record Dta : Type 0 where
    pub degree : ℕ
    pub ds_num : ℕ
    pub p_lag : F.Double
    pub qos_delays : ℕ → F.Double
    pub degrees : ℕ → ℕ
    pub req_list : Table Request
    pub waiting_subreqs : Table GPacket
    pub dispatched_subreqs : Table GPacket
    pub edf_q : ℕ → Edf F GPacket
    pub lr_q : ℕ → Fifo GPacket
    pub last_fin_time : ℕ → Option F.Double
    pub fin_int : ℕ → F.Double
    pub int_weight : F.Double
    pub service_time : ℕ → F.Double
    pub svc_weight : F.Double

  abbrev pub request_of : GPacket → ℕ
  request_of p = p.id / cid_offset * cid_offset + p.sub_id

  abbrev pub new_request : F.Double → Dta → GPacket → Request
  new_request now q p = record {
    deadline = F.add now (q.qos_delays p.app);
    waiting_ctr = 0;
    total_ctr = p.total_subreqs;
    serving_ctr = 0;
    served_ctr = 0;
    waiting_subreqs = λ i. none;
  }

  -- The ID of the request as an `int`, which `dispatchUpdate` and `popOsQ` use: the remainder at 2 ^ 32, which stands for
  -- a negative number from 2 ^ 31 on; no request has such an ID.
  abbrev pub short_of : GPacket → ℕ
  short_of p = request_of p % 4294967296

  unfoldable pub find_short : Table Request → GPacket → Option Request
  find_short m p = if ltb (short_of p) 2147483648 then m (short_of p) else none

  abbrev pub request_or : Option Request → Request → Request
  request_or none r = r
  request_or (some r) s = r

  abbrev pub set_edf : ℕ → Fifo GPacket → Dta → Dta
  set_edf sid f q = record q { edf_q = update q.edf_q sid (record (q.edf_q sid) { queue = f }) }

  abbrev pub set_lr : ℕ → Fifo GPacket → Dta → Dta
  set_lr sid f q = record q { lr_q = update q.lr_q sid f }

  -- The packet of a slot that is moved to the queue of those that lag behind; `none` stands for the use of the
  -- end of the map.
  move_lagged : ℕ → ℕ → Option GPacket → Request → Dta → Option (Request × Dta)
  move_lagged rid i none r q = none
  move_lagged rid i (some p) r q = some (
    record r { waiting_subreqs = update r.waiting_subreqs i none },
    set_lr p.ds_id (Q.push_wait_q p (q.lr_q p.ds_id)) q,
  )

  -- One round of the loop over the slots.
  move_slot : ℕ → ℕ → Option ℕ → Request → Dta → Option (Request × Dta)
  unfolding move_lagged
  move_slot rid i none r q = some (r, q)
  move_slot rid i (some pid) r q = move_lagged rid i (q.waiting_subreqs pid) r q

  move_slots : ℕ → ℕ → ℕ → Request → Dta → Option (Request × Dta)
  unfolding move_slot
  move_slots rid zero i r q = some (r, q)
  move_slots rid (suc n) i r q = elim (move_slot rid i (r.waiting_subreqs i) r q) [
    | none ↦ none
    | some (r', q') ↦ move_slots rid n (i + 1) r' q'
  ]

  abbrev pub put_request : ℕ → Option (Request × Dta) → Option Dta
  put_request rid none = none
  put_request rid (some (r, q)) = some (record q { req_list = update q.req_list rid (some r) })

  -- What a call gives out, and the queue after it; `none` stands for `PrintError::print`, the use of the end
  -- of a map, or a loop that ran out of fuel.
  abbrev pub Result : Type 0
  Result = Option (Option GPacket × Dta)

  abbrev pub given : GPacket → Option Dta → Result
  given p none = none
  given p (some q) = some (some p, q)

  -- The expected finish time violates the deadline.
  unfoldable pub is_urgent : F.Double → ℕ → Request → Dta → Bool
  is_urgent now sid r q =
      let finish = F.add now (q.service_time sid) in
      not (F.lt finish r.deadline)
      || ((q.degrees sid == q.degree - 1) && not (F.lt (F.add finish (q.fin_int sid)) r.deadline))

  pub query_job : ℕ → Dta → Option GPacket
  query_job id q = q.dispatched_subreqs id

module _ (F : Arith) (trunc : F.Double → ℕ) where
  -- The packets that are neither served nor being served are few enough.
  abbrev pub is_lagged : Dta F → Request F → Bool
  is_lagged q r =
      leb (r.total_ctr - r.serving_ctr - r.served_ctr)
        (trunc (F.mul (F.of_nat r.total_ctr) q.p_lag))

  update_request : GPacket → Option (Request F) → Dta F → Option (Dta F)
  unfolding move_slots
  update_request p none q = none
  update_request p (some found) q =
      let rid = short_of F p in
      let r = record found {
        waiting_ctr = found.waiting_ctr - 1;
        serving_ctr = found.serving_ctr + 1;
        waiting_subreqs = update found.waiting_subreqs p.ds_id none;
      } in
      put_request F rid (if is_lagged q r then move_slots F rid q.ds_num 0 r q else some (r, q))

  unfoldable pub dispatch_update : GPacket → Dta F → Option (Dta F)
  unfolding update_request
  dispatch_update p q = update_request p (find_short F q.req_list p) (record q {
    degrees = update q.degrees p.ds_id (q.degrees p.ds_id + 1);
    waiting_subreqs = erase p.id q.waiting_subreqs;
    dispatched_subreqs = insert p.id p q.dispatched_subreqs;
  })

  unfoldable pub deliver : GPacket → Dta F → Result F
  unfolding dispatch_update
  deliver p q = given F p (dispatch_update p q)

  -- Out of the queue of those that lag behind, or `p` of the EDF queue where nothing waits there.
  unfoldable pub take_lagged :
      ℕ → GPacket → Fifo GPacket → Dta F → Option (Option GPacket × Fifo GPacket) → Result F
  unfolding deliver
  take_lagged sid p f q none = none
  take_lagged sid p f q (some (none, g)) =
      deliver p (set_edf F sid (take_out p f) (set_lr F sid g q))
  take_lagged sid p f q (some (some p', g)) =
      deliver p' (set_lr F sid (take_out p' g) (set_edf F sid f q))

  unfoldable pub take_with :
      F.Double → ℕ → GPacket → Fifo GPacket → Dta F → Option (Request F) → Result F
  unfolding take_lagged is_urgent
  take_with now sid p f q none = none
  take_with now sid p f q (some r) =
      if is_urgent F now sid r q
      then deliver p (set_edf F sid (take_out p f) q)
      else take_lagged sid p f q (first_waiting q.waiting_subreqs (q.lr_q sid))

  unfoldable pub take_first :
      F.Double → ℕ → Dta F → Option (Option GPacket × Fifo GPacket) → Result F
  unfolding take_with
  take_first now sid q none = none
  take_first now sid q (some (none, f)) = some (none, set_edf F sid f q)
  take_first now sid q (some (some p, f)) = take_with now sid p f q (q.req_list (request_of F p))

  unfoldable pub try_to_dispatch : F.Double → ℕ → Dta F → Result F
  unfolding take_first
  try_to_dispatch now sid q =
      if leb q.degree (q.degrees sid) && ltb 0 q.degree
      then some (none, q)
      else take_first now sid q (first_waiting q.waiting_subreqs (q.edf_q sid).queue)

  abbrev pub or_next : Result F → (Dta F → Result F) → Result F
  or_next none k = none
  or_next (some (none, q)) k = k q
  or_next (some (some p, q)) k = some (some p, q)

  -- The loop over the servers from `i` on, `n` of them.
  unfoldable pub dispatch_from : F.Double → ℕ → ℕ → Dta F → Result F
  unfolding try_to_dispatch
  dispatch_from now zero i q = some (none, q)
  dispatch_from now (suc n) i q =
      let tried =
        or_next (try_to_dispatch now i q) (λ (q' : Dta F). dispatch_from now n (i + 1) q') in
      let passed = dispatch_from now n (i + 1) q in
      if not (is_nil (q.edf_q i).queue.wait_q) && ltb (q.degrees i) q.degree && ltb 0 q.degree
      then tried
      else passed

  unfoldable pub dispatch_next : F.Double → Dta F → Result F
  unfolding dispatch_from
  dispatch_next now q = dispatch_from now q.ds_num 0 q

module _ (F : Arith) (trunc : F.Double → ℕ) (risetime : GPacket → F.Double) where
  -- `pushWaitQ` after the EDF queue of the server is refined.
  pushed : F.Double → GPacket → Dta F → Fifo GPacket → Dta F
  pushed now p q f =
      let sid = p.ds_id in
      let rid = request_of F p in
      let found = request_or F (q.req_list rid) (new_request F now q p) in
      let r = record found {
        waiting_ctr = found.waiting_ctr + 1;
        waiting_subreqs = update found.waiting_subreqs sid (some p.id);
      } in
      let e = E.push_wait_q F g_packet risetime p (record (q.edf_q sid) { queue = f }) in
      record q {
        req_list = update q.req_list rid (some r);
        edf_q = update q.edf_q sid e;
        waiting_subreqs = insert p.id p q.waiting_subreqs;
        lr_q =
            if is_lagged F trunc q r
            then update q.lr_q sid (Q.push_wait_q p (q.lr_q sid))
            else q.lr_q;
      }

  abbrev pub with_refined : Option (Fifo GPacket) → (Fifo GPacket → Dta F) → Option (Dta F)
  with_refined none k = none
  with_refined (some f) k = some (k f)

  unfoldable pub push_wait_q : F.Double → GPacket → Dta F → Option (Dta F)
  unfolding refine pushed
  push_wait_q now p q =
      with_refined (refine q.waiting_subreqs (q.edf_q p.ds_id).queue) (pushed now p q)
