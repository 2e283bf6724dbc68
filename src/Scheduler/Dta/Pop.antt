-- ===== src/Scheduler/Dta/Pop.antt =====
-- The end of a packet (omnetpp/scheduler/DTA/DTA.cc).
use pfssim.Base.{ℕ, ◌+◌, ◌-◌, Option, none, some, ◌==◌, if◌then◌else◌, update, Arith}
use pfssim.Packet.{GPacket}
use pfssim.Scheduler.Fifo.{Fifo}
use pfssim.Scheduler.Dta.Inner.{erase, refine}
use pfssim.Scheduler.Dta.{Request, Dta, short_of, find_short, set_edf, set_lr}

module _ (F : Arith) (schedule_time : GPacket → F.Double) where
  -- Both queues of the server are refined; then the times are updated.
  abbrev pub average : F.Double → F.Double → F.Double → F.Double
  average old new weight = F.add (F.mul old (F.sub (F.of_nat 1) weight)) (F.mul new weight)

  abbrev interval : F.Double → ℕ → Option F.Double → Dta F → F.Double
  interval now sid none q = q.fin_int sid
  interval now sid (some t) q = average (q.fin_int sid) (F.sub now t) q.int_weight

  timed : F.Double → GPacket → Dta F → Dta F
  timed now p q =
      let sid = p.ds_id in
      record q {
        service_time =
            update q.service_time sid
              (average (q.service_time sid) (F.sub now (schedule_time p)) q.svc_weight);
        fin_int = update q.fin_int sid (interval now sid (q.last_fin_time sid) q);
        last_fin_time = update q.last_fin_time sid (some now);
      }

  refined :
      F.Double
      → GPacket
      → Dta F
      → Option (Fifo GPacket)
      → Option (Fifo GPacket)
      → Option (GPacket × Dta F)
  unfolding timed
  refined now p q (some f) (some g) =
      some (p, timed now p (set_lr F p.ds_id g (set_edf F p.ds_id f q)))
  refined now p q _ _ = none

  abbrev serve_out : ℕ → Request F → Dta F → Dta F
  serve_out rid r q =
      let r' = record r { serving_ctr = r.serving_ctr - 1; served_ctr = r.served_ctr + 1 } in
      record q {
        req_list =
            if r'.served_ctr == r'.total_ctr
            then erase rid q.req_list
            else update q.req_list rid (some r');
      }

  abbrev after_request : F.Double → GPacket → Dta F → Option (Request F) → Option (GPacket × Dta F)
  after_request now p q none = none
  after_request now p q (some r) =
      let sid = p.ds_id in
      refined now p (serve_out (short_of F p) r q) (refine q.waiting_subreqs (q.edf_q sid).queue)
        (refine q.waiting_subreqs (q.lr_q sid))

  pop_found : F.Double → Option GPacket → Dta F → Option (GPacket × Dta F)
  unfolding refined
  pop_found now none q = none
  pop_found now (some p) q =
      after_request now p
        (record q {
          dispatched_subreqs = erase p.id q.dispatched_subreqs;
          degrees = update q.degrees p.ds_id (q.degrees p.ds_id - 1);
        })
        (find_short F q.req_list p)

  unfoldable pub pop_os_q : F.Double → ℕ → Dta F → Option (GPacket × Dta F)
  unfolding pop_found
  pop_os_q now id q = pop_found now (q.dispatched_subreqs id) q
