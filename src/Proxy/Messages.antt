-- ===== src/Proxy/Messages.antt =====
-- `handleMessage` of a proxy (omnetpp/proxy/Proxy.cc), over any queue that keeps the contract.
use pfssim.Base.{
  ℕ, ◌-◌, ◌≡◌, refl, sym, ap, ◌∙◌, List, Bool, true, false, some, [], ◌∷◌, count_by, count_by-one,
  count_by-nil, arith, to_list, if◌then◌else◌, ◌==◌,
}
use pfssim.Packet.{
  Kind, GPacket, pfs_w_req, pfs_r_req, pfs_w_resp, pfs_w_data, pfs_w_data_last, pfs_w_fin,
  pfs_r_data, pfs_r_data_last, self_pfs_w_req, self_pfs_r_req, self_pfs_w_resp, self_pfs_w_data,
  self_pfs_w_data_last, self_pfs_w_fin, self_pfs_r_data, self_pfs_r_data_last,
}
use pfssim.Scheduler.IQueue.{IQueue, Contract}
use pfssim.Proxy.{
  Messenger, schedules, Proxy, Result, inner, inner_kind, outer, outer_kind, is_inner,
  propagates_on_push, propagates_on_pop, propagate_if, send_safe, schedule_jobs, handle_job_req2,
  handle_job_req, delay_or, record_packet_id, handle_read_last_write_fin2,
  handle_read_last_write_fin, handle_minor_read_write, handle_kind, handle_message, Incoming,
  packet, from_scheduler, timer, Effect, sets_timer, Algorithm, dsfqatb, i2l, is_distributed,
  notified, set_timer, timer_for, propagate_s_packets, handle_inter_scheduler_packet,
  handle_algorithm_timer,
}
use pfssim.Proxy.Handled.{
  packets_of, Handled, any_packet, outside, IsCounted, Handles, then_do-Handles, Handles-shift,
}
use pfssim.Proxy.Schedule.{
  propagate_s_packets-Handles, IsQuiet, length-count_by, propagate_if-Handles,
  schedule_jobs-Handles,
}

-- The packets that the queue is handed, and the final replies, whose request is popped.
pub data Role : Type 0 where
  request reply passing unhandled : Role

abbrev pub role : Kind → Role
role pfs_r_req = request
role pfs_w_req = request
role self_pfs_r_req = request
role self_pfs_w_req = request
role pfs_w_fin = reply
role pfs_r_data_last = reply
role self_pfs_w_fin = reply
role self_pfs_r_data_last = reply
role pfs_w_resp = passing
role pfs_w_data = passing
role pfs_w_data_last = passing
role pfs_r_data = passing
role self_pfs_w_resp = passing
role self_pfs_w_data = passing
role self_pfs_w_data_last = passing
role self_pfs_r_data = passing
role _ = unhandled

inside_none : (a : GPacket) → is_inner a.kind ≡ true → count_by outside (a ∷ []) ≡ 0
unfolding count_by
inside_none a h = ground arith

module _ (q : IQueue GPacket) (m : Messenger q) (c : Contract q) (quiet : IsQuiet m c) where
  -- A handler of a part: it ends and keeps every packet.
  abbrev Keeps : Proxy q m → GPacket → Result q m → Type 0
  Keeps x p r = Handles q m c 0 x (p ∷ []) r

  send_safe-Keeps :
      (p : GPacket) (x : Proxy q m)
      → is_inner p.kind ≡ true
      → IsCounted q m c 0 x
      → Keeps x p (send_safe q m p x)
  unfolding send_safe
  send_safe-Keeps p x e s = rw e record {
    sound = s;
    kept = λ t b. omega (arith, count_by-one t (outer p) p (b p (outer_kind p.kind)));
  }

  handle_job_req2-Keeps :
      (p : GPacket) (x : Proxy q m)
      → c.Accepts p
      → is_inner p.kind ≡ true
      → IsCounted q m c 0 x
      → Keeps x p (handle_job_req2 q m p x)
  unfolding handle_job_req2
  handle_job_req2-Keeps p x a e s =
      let y = record x { queue = q.push_wait_q p x.queue } in
      Handles-shift q m c 0 x y (p ∷ []) [] _
        (λ t b. omega (arith, (c.push_moves t p x.queue a s.valid).0, count_by-nil t))
        (then_do-Handles q m c 0 0 y [] [] (propagate_if q m (propagates_on_push x.algorithm) y)
          (schedule_jobs q m)
          (propagate_if-Handles q m c quiet (propagates_on_push x.algorithm) y (record {
            valid = c.push-Valid p x.queue a s.valid;
            counted = omega (arith, s.counted, (c.push_moves any_packet p x.queue a s.valid).1);
            ready =
                omega
                  (arith, s.ready, (c.push_moves outside p x.queue a s.valid).0, inside_none p e);
          }))
          (λ es z k. schedule_jobs-Handles q m c quiet z k.sound))

  handle_fin2-Keeps :
      (p r : GPacket) (x : Proxy q m)
      → (q.pop_os_q (record_packet_id p) x.queue).0 ≡ some r
      → is_inner p.kind ≡ true
      → IsCounted q m c 0 x
      → Keeps x p (handle_read_last_write_fin2 q m p x)
  unfolding handle_read_last_write_fin2
  handle_fin2-Keeps p r x e i s =
      let id = record_packet_id p in
      let y = record x { queue = (q.pop_os_q id x.queue).1; os_req_num = x.os_req_num - 1 } in
      let d = λ (t : GPacket → Bool). c.pop_moves t id x.queue s.valid in
      Handles-shift q m c 0 x y (p ∷ []) (p ∷ []) _ (λ t b. omega (arith, (d t).0))
        (then_do-Handles q m c 0 0 y (p ∷ []) [] _ (schedule_jobs q m)
          (then_do-Handles q m c 0 0 y [] (p ∷ [])
            (propagate_if q m (propagates_on_pop x.algorithm) y) (send_safe q m p)
            (propagate_if-Handles q m c quiet (propagates_on_pop x.algorithm) y (record {
              valid = c.pop-Valid id x.queue s.valid;
              counted = omega (
                arith,
                s.counted,
                (d any_packet).1,
                ap (λ o. count_by any_packet (to_list o)) e,
                length-count_by (r ∷ []),
              );
              ready = omega (arith, s.ready, (d outside).0);
            }))
            (λ es z k. send_safe-Keeps p z i k.sound))
          (λ es z k. schedule_jobs-Handles q m c quiet z k.sound))

  at_once-Keeps :
      (b : Bool) (d : ℕ) (p : GPacket) (x : Proxy q m) (r : Result q m)
      → IsCounted q m c 0 x
      → Keeps x (inner p) r
      → Keeps x p (if b then r else some (schedules d (inner p) ∷ [], x))
  at_once-Keeps true d p x r s h =
      Handles-shift q m c 0 x x (p ∷ []) (inner p ∷ []) r
        (λ t b. omega (arith, count_by-one t (inner p) p (b p (inner_kind p.kind)))) h
  at_once-Keeps false d p x r s h = record {
    sound = s;
    kept = λ t b. omega (arith, count_by-one t (inner p) p (b p (inner_kind p.kind)));
  }

  delay_or-Keeps :
      (d : ℕ) (p : GPacket) (x : Proxy q m) (f : GPacket → Proxy q m → Result q m)
      → IsCounted q m c 0 x
      → Keeps x (inner p) (f (inner p) x)
      → Keeps x p (delay_or q m d (inner p) f x)
  unfolding delay_or
  delay_or-Keeps d p x f s h = at_once-Keeps (d == 0) d p x (f (inner p) x) s h

  -- What is asked of a packet, by its role: the queue takes a request, under either kind, and has
  -- the request of a reply outstanding.
  unfoldable pub FitsAs : Role → GPacket → Proxy q m → Type 0
  FitsAs request p x = c.Accepts p × c.Accepts (inner p)
  FitsAs reply p x = (r : GPacket) × ((q.pop_os_q (record_packet_id p) x.queue).0 ≡ some r)
  FitsAs passing p x = Unit
  FitsAs unhandled p x = ⊥

  message-Keeps :
      (k : Kind) (p : GPacket) (x : Proxy q m)
      → p.kind ≡ k
      → FitsAs (role k) p x
      → IsCounted q m c 0 x
      → Keeps x p (handle_kind q m k p x)
  unfolding handle_kind handle_job_req handle_read_last_write_fin handle_minor_read_write FitsAs
  message-Keeps pfs_r_req p x e f s =
      delay_or-Keeps _ p x (handle_job_req2 q m) s
        (handle_job_req2-Keeps (inner p) x f.1 (ap (λ k. is_inner (inner_kind k)) e) s)
  message-Keeps pfs_w_req p x e f s =
      delay_or-Keeps _ p x (handle_job_req2 q m) s
        (handle_job_req2-Keeps (inner p) x f.1 (ap (λ k. is_inner (inner_kind k)) e) s)
  message-Keeps self_pfs_r_req p x e f s = handle_job_req2-Keeps p x f.0 (ap is_inner e) s
  message-Keeps self_pfs_w_req p x e f s = handle_job_req2-Keeps p x f.0 (ap is_inner e) s
  message-Keeps pfs_w_fin p x e f s =
      delay_or-Keeps _ p x (handle_read_last_write_fin2 q m) s
        (handle_fin2-Keeps (inner p) f.0 x f.1 (ap (λ k. is_inner (inner_kind k)) e) s)
  message-Keeps pfs_r_data_last p x e f s =
      delay_or-Keeps _ p x (handle_read_last_write_fin2 q m) s
        (handle_fin2-Keeps (inner p) f.0 x f.1 (ap (λ k. is_inner (inner_kind k)) e) s)
  message-Keeps self_pfs_w_fin p x e f s = handle_fin2-Keeps p f.0 x f.1 (ap is_inner e) s
  message-Keeps self_pfs_r_data_last p x e f s = handle_fin2-Keeps p f.0 x f.1 (ap is_inner e) s
  message-Keeps pfs_w_resp p x e f s =
      delay_or-Keeps _ p x (send_safe q m) s
        (send_safe-Keeps (inner p) x (ap (λ k. is_inner (inner_kind k)) e) s)
  message-Keeps pfs_w_data p x e f s =
      delay_or-Keeps _ p x (send_safe q m) s
        (send_safe-Keeps (inner p) x (ap (λ k. is_inner (inner_kind k)) e) s)
  message-Keeps pfs_w_data_last p x e f s =
      delay_or-Keeps _ p x (send_safe q m) s
        (send_safe-Keeps (inner p) x (ap (λ k. is_inner (inner_kind k)) e) s)
  message-Keeps pfs_r_data p x e f s =
      delay_or-Keeps _ p x (send_safe q m) s
        (send_safe-Keeps (inner p) x (ap (λ k. is_inner (inner_kind k)) e) s)
  message-Keeps self_pfs_w_resp p x e f s = send_safe-Keeps p x (ap is_inner e) s
  message-Keeps self_pfs_w_data p x e f s = send_safe-Keeps p x (ap is_inner e) s
  message-Keeps self_pfs_w_data_last p x e f s = send_safe-Keeps p x (ap is_inner e) s
  message-Keeps self_pfs_r_data p x e f s = send_safe-Keeps p x (ap is_inner e) s
  message-Keeps _ p x e f s = absurd f

  -- The state of the queue after a message or the timer.
  moved_queue-Handles :
      (x : Proxy q m) (s : q.State) (es : List (Effect m.Message))
      → packets_of es ≡ []
      → c.Valid s
      → ((p : GPacket → Bool)
          → (count_by p (q.waiting s) ≡ count_by p (q.waiting x.queue))
            × (count_by p (q.outstanding s) ≡ count_by p (q.outstanding x.queue)))
      → IsCounted q m c 0 x
      → Handled q m c 0 x [] es (record x { queue = s })
  moved_queue-Handles x s es n v k h = record {
    sound = record {
      valid = v;
      counted = h.counted ∙ sym (k any_packet).1;
      ready = (k outside).0 ∙ h.ready;
    };
    kept = λ p b. omega (arith, (k p).0, ap (count_by p) n, count_by-nil p);
  }

  set_timer-Handles : (x : Proxy q m) → IsCounted q m c 0 x → Handles q m c 0 x [] (set_timer q m x)
  unfolding set_timer notified
  set_timer-Handles x h =
      moved_queue-Handles x (m.notify x.queue).1 (sets_timer (m.notify x.queue).0 ∷ []) refl
        (quiet.notify-Valid x.queue h.valid) (λ p. quiet.notify_keeps p x.queue h.valid) h

  abbrev pub has_timer : Algorithm → Bool
  has_timer dsfqatb = true
  has_timer i2l = true
  has_timer _ = false

  timer_for-Handles :
      (a : Algorithm) (x : Proxy q m)
      → has_timer a ≡ true
      → IsCounted q m c 0 x
      → Handles q m c 0 x [] (timer_for q m a x)
  unfolding timer_for
  timer_for-Handles dsfqatb x e h =
      then_do-Handles q m c 0 0 x [] [] (propagate_s_packets q m x) (set_timer q m)
        (propagate_s_packets-Handles q m c quiet x h) (λ es y k. set_timer-Handles y k.sound)
  timer_for-Handles i2l x e h =
      then_do-Handles q m c 0 0 x [] [] (set_timer q m x) (schedule_jobs q m)
        (set_timer-Handles x h) (λ es y k. schedule_jobs-Handles q m c quiet y k.sound)
  timer_for-Handles _ x e h = absurd (cc e)

  -- What is asked of a message: a packet fits as its role says, a message of another scheduler or the timer comes
  -- only where the algorithm has them.
  abbrev pub FitsIn : Incoming q m → Proxy q m → Type 0
  FitsIn (packet p) x = FitsAs (role p.kind) p x
  FitsIn (from_scheduler msg) x = is_distributed x.algorithm ≡ true
  FitsIn timer x = has_timer x.algorithm ≡ true

  abbrev pub packets_in : Incoming q m → List GPacket
  packets_in (packet p) = p ∷ []
  packets_in (from_scheduler msg) = []
  packets_in timer = []

  -- Take a queue that keeps the contract, loses no packet when it takes a message of another scheduler or is
  -- notified, and stops propagating after a bounded number of messages. A proxy over it whose count is the
  -- number of outstanding requests handles every packet of a kind that it handles, every message of
  -- another scheduler and the timer to the end: what waited or arrived waits afterwards, is sent, or is
  -- scheduled for later, each packet as often, whatever its kind became; and as many are outstanding as it
  -- counts then. What waits has an internal kind. A request is one that the queue accepts, the request of
  -- a final reply is outstanding, and messages and the timer come only for the algorithms that have them.
  pub handle_message-Handles :
      (i : Incoming q m) (x : Proxy q m)
      → FitsIn i x
      → IsCounted q m c 0 x
      → Handles q m c 0 x (packets_in i) (handle_message q m i x)
  unfolding handle_message handle_inter_scheduler_packet handle_algorithm_timer
  handle_message-Handles (packet p) x f s = message-Keeps p.kind p x refl f s
  handle_message-Handles (from_scheduler msg) x f s = rw f (
      moved_queue-Handles x (m.receive_s_packet msg x.queue) [] refl
        (quiet.receive-Valid msg x.queue s.valid) (λ p. quiet.receive_keeps p msg x.queue s.valid)
        s)
  handle_message-Handles timer x f s = timer_for-Handles x.algorithm x f s
