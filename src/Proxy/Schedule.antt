-- ===== src/Proxy/Schedule.antt =====
-- The loops of a proxy (omnetpp/proxy/Proxy.cc) end, over any queue that keeps the contract.
use pfssim.Base.{
  ℕ, zero, suc, ◌+◌, ◌<◌, ◌≡◌, refl, sym, ap, ◌∙◌, inl, inr, ◌⊎◌, Bool, true, false, Option, none,
  some, List, [], ◌∷◌, length, count_by, count_by-one, count_by-nil, arith, to_list, Option-cases,
}
use pfssim.Packet.{GPacket}
use pfssim.Scheduler.IQueue.{IQueue, Contract}
use pfssim.Proxy.{
  Messenger, sends, is_inner, Proxy, Result, then_do, outer, outer_kind, propagated, propagate_all,
  told, propagate_s_packets, propagate_if, propagates_on_dispatch, count_one, send_safe, send_copy,
  scheduled, schedule_all, schedule_jobs,
}
use pfssim.Proxy.Handled.{
  packets_of-tells, any_packet, outside, outside_none, IsCounted, Handled, Handles, idle-Handled,
  Handled-trans, Handles-prefix, Handles-shift,
}

-- What the proxy relies on in the messages and the timer of a queue: there are only so many messages in a row;
-- messages and the timer lose no packet, and dispatch none.
pub record IsQuiet {q : IQueue GPacket} (m : Messenger q) (c : Contract q) : Type 0 where
  pub falls :
      (s : q.State) (msg : m.Message)
      → (m.propagate_s_packet s).0 ≡ some msg
      → m.left (m.propagate_s_packet s).1 < m.left s
  pub propagate-Valid : (s : q.State) → c.Valid s → c.Valid (m.propagate_s_packet s).1
  pub keeps :
      (p : GPacket → Bool) (s : q.State)
      → (count_by p (q.waiting (m.propagate_s_packet s).1) ≡ count_by p (q.waiting s))
        × (count_by p (q.outstanding (m.propagate_s_packet s).1) ≡ count_by p (q.outstanding s))
  pub receive-Valid :
      (msg : m.Message) (s : q.State) → c.Valid s → c.Valid (m.receive_s_packet msg s)
  pub receive_keeps :
      (p : GPacket → Bool) (msg : m.Message) (s : q.State)
      → c.Valid s
      → (count_by p (q.waiting (m.receive_s_packet msg s)) ≡ count_by p (q.waiting s))
        × (count_by p (q.outstanding (m.receive_s_packet msg s)) ≡ count_by p (q.outstanding s))
  pub notify-Valid : (s : q.State) → c.Valid s → c.Valid (m.notify s).1
  pub notify_keeps :
      (p : GPacket → Bool) (s : q.State)
      → c.Valid s
      → (count_by p (q.waiting (m.notify s).1) ≡ count_by p (q.waiting s))
        × (count_by p (q.outstanding (m.notify s).1) ≡ count_by p (q.outstanding s))

pub length-count_by : (xs : List GPacket) → count_by any_packet xs ≡ length xs
unfolding count_by
length-count_by [] = refl
length-count_by (a ∷ xs) = omega (arith, length-count_by xs)

module _ (q : IQueue GPacket) (m : Messenger q) (c : Contract q) (quiet : IsQuiet m c) where
  -- Messages leave the packets of a queue where they are.
  record Keeps (s s' : q.State) : Type 0 where
    valid : c.Valid s'
    same :
        (p : GPacket → Bool)
        → (count_by p (q.waiting s') ≡ count_by p (q.waiting s))
          × (count_by p (q.outstanding s') ≡ count_by p (q.outstanding s))

  abbrev Propagates : q.State → Option (List m.Message × q.State) → Type 0
  Propagates s none = ⊥
  Propagates s (some (ms, s')) = Keeps s s'

  propagated-Propagates :
      (o : Option m.Message) (s s' : q.State) (rest : Option (List m.Message × q.State))
      → Keeps s s'
      → (o ≡ none) ⊎ Propagates s' rest
      → Propagates s (propagated q m o s' rest)
  unfolding propagated
  propagated-Propagates none s s' rest k h = k
  propagated-Propagates (some msg) s s' none k (inl e) = absurd (ground (arith, e))
  propagated-Propagates (some msg) s s' none k (inr h) = h
  propagated-Propagates (some msg) s s' (some (ms, s'')) k (inl e) = absurd (ground (arith, e))
  propagated-Propagates (some msg) s s' (some (ms, s'')) k (inr h) = record {
    valid = h.valid;
    same = λ p. ((h.same p).0 ∙ (k.same p).0, (h.same p).1 ∙ (k.same p).1);
  }

  propagate_all-Propagates :
      (fuel : ℕ) (s : q.State)
      → m.left s < fuel
      → c.Valid s
      → Propagates s (propagate_all q m fuel s)
  unfolding propagate_all
  propagate_all-Propagates zero s h v = absurd (omega arith)
  propagate_all-Propagates (suc fuel) s h v =
      propagated-Propagates (m.propagate_s_packet s).0 s (m.propagate_s_packet s).1 _
        (record { valid = quiet.propagate-Valid s v; same = λ p. quiet.keeps p s })
        (elim (Option-cases (m.propagate_s_packet s).0) [
          | inl silent ↦ inl silent
          | inr (msg, e) ↦ inr (
              propagate_all-Propagates fuel (m.propagate_s_packet s).1
                (omega (arith, quiet.falls s msg e)) (quiet.propagate-Valid s v))
        ])

  told-Handles :
      {n : ℕ} (x : Proxy q m) (o : Option (List m.Message × q.State))
      → IsCounted q m c n x
      → Propagates x.queue o
      → Handles q m c n x [] (told q m x o)
  unfolding told
  told-Handles x none s h = h
  told-Handles x (some (ms, s')) s h = record {
    sound = record {
      valid = h.valid;
      counted = s.counted ∙ sym (h.same any_packet).1;
      ready = (h.same outside).0 ∙ s.ready;
    };
    kept =
        λ p b. omega (arith, (h.same p).0, ap (count_by p) (packets_of-tells ms), count_by-nil p);
  }

  -- `propagateSPackets` ends and moves no packet.
  pub propagate_s_packets-Handles :
      {n : ℕ} (x : Proxy q m)
      → IsCounted q m c n x
      → Handles q m c n x [] (propagate_s_packets q m x)
  unfolding propagate_s_packets
  propagate_s_packets-Handles x s =
      told-Handles x _ s
        (propagate_all-Propagates (suc (m.left x.queue)) x.queue (omega arith) s.valid)

  pub propagate_if-Handles :
      {n : ℕ} (b : Bool) (x : Proxy q m)
      → IsCounted q m c n x
      → Handles q m c n x [] (propagate_if q m b x)
  unfolding propagate_if
  propagate_if-Handles true x s = propagate_s_packets-Handles x s
  propagate_if-Handles false x s = idle-Handled q m c x s

  send_copy-Handles :
      (p : GPacket) (x : Proxy q m)
      → is_inner p.kind ≡ true
      → IsCounted q m c 1 x
      → Handled q m c 0 x
          (p ∷ [])
          (sends (outer p) ∷ [])
          (record x { os_req_num = x.os_req_num + 1 })
  send_copy-Handles p x e s = record {
    sound = record { valid = s.valid; counted = omega (arith, s.counted); ready = s.ready };
    kept = λ t b. omega (arith, count_by-one t (outer p) p (b p (outer_kind p.kind)));
  }

  -- What the rest of the loop owes, with fewer packets waiting than `bound`.
  abbrev Rest : ℕ → (Proxy q m → Result q m) → Type 0
  Rest bound rest =
      (y : Proxy q m)
      → IsCounted q m c 0 y
      → count_by any_packet (q.waiting y.queue) < bound
      → Handles q m c 0 y [] (rest y)

  -- A round that dispatches a packet sends it.
  round-Handles :
      (p : GPacket) (x : Proxy q m) (r : Result q m) (rest : Proxy q m → Result q m)
      → is_inner p.kind ≡ true
      → Handles q m c 1 x [] r
      → Rest (count_by any_packet (q.waiting x.queue) + 1) rest
      → Handles q m c 0 x (p ∷ []) (then_do q m (then_do q m r (send_copy q m p)) rest)
  unfolding send_copy count_one send_safe
  round-Handles p x none rest e h k = absurd h
  round-Handles p x (some (es, y)) rest e h k = rw e (
      let y' = record y { os_req_num = y.os_req_num + 1 } in
      let sent = send_copy-Handles p y e h.sound in
      Handles-prefix q m c 0 x y' (p ∷ []) [] _ (rest y')
        (Handled-trans q m c x y y' [] (p ∷ []) es _ h sent)
        (k y' sent.sound (omega (arith, h.kept any_packet (λ a e. refl), count_by-nil any_packet))))

  -- A dispatch, and the rest of the loop on what it leaves.
  scheduled-Handles :
      (o : Option GPacket) (x y : Proxy q m) (rest : Proxy q m → Result q m)
      → c.Valid y.queue
      → y.os_req_num + count_by any_packet (to_list o) ≡ count_by any_packet (q.outstanding y.queue)
      → count_by outside (q.waiting x.queue) ≡ 0
      → ((p : GPacket → Bool)
          → count_by p (q.waiting x.queue)
            ≡ count_by p (q.waiting y.queue) + count_by p (to_list o))
      → ((p : GPacket) → o ≡ some p → Rest (count_by any_packet (q.waiting x.queue)) rest)
      → Handles q m c 0 x [] (scheduled q m o y rest)
  unfolding scheduled count_by
  scheduled-Handles none x y rest v n r w h = record {
    sound = record {
      valid = v;
      counted = omega (arith, n, count_by-nil any_packet);
      ready = omega (arith, r, w outside);
    };
    kept = λ p b. omega (arith, w p);
  }
  scheduled-Handles (some p) x y rest v n r w h =
      let one = length-count_by (p ∷ []) in
      Handles-shift q m c 0 x y [] (p ∷ []) _ (λ t b. omega (arith, w t, count_by-nil t))
        (round-Handles p y _ rest (outside_none p (omega (arith, r, w outside)))
          (propagate_if-Handles (propagates_on_dispatch y.algorithm) y (record {
            valid = v;
            counted = omega (arith, n, one);
            ready = omega (arith, r, w outside);
          }))
          (λ z s l. h p refl z s (omega (arith, l, w any_packet, one))))

  schedule_all-Handles :
      (fuel : ℕ) (x : Proxy q m)
      → IsCounted q m c 0 x
      → count_by any_packet (q.waiting x.queue) < fuel
      → Handles q m c 0 x [] (schedule_all q m fuel x)
  unfolding schedule_all
  schedule_all-Handles zero x s l = absurd (omega arith)
  schedule_all-Handles (suc fuel) x s l =
      let d = λ (p : GPacket → Bool). c.dispatch_moves p x.queue s.valid in
      scheduled-Handles (q.dispatch_next x.queue).0 x
        (record x { queue = (q.dispatch_next x.queue).1 }) (schedule_all q m fuel)
        (c.dispatch-Valid x.queue s.valid) (omega (arith, (d any_packet).1, s.counted)) s.ready
        (λ p. (d p).0) (λ p e y k n. schedule_all-Handles fuel y k (omega (arith, n, l)))

  -- `scheduleJobs` ends: it sends every packet that it dispatches, once, and counts it.
  pub schedule_jobs-Handles :
      (x : Proxy q m) → IsCounted q m c 0 x → Handles q m c 0 x [] (schedule_jobs q m x)
  unfolding schedule_jobs
  schedule_jobs-Handles x s =
      schedule_all-Handles (suc (length (q.waiting x.queue))) x s
        (omega (arith, length-count_by (q.waiting x.queue)))
