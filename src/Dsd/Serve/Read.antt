-- ===== src/Dsd/Serve/Read.antt =====
-- The answers to a read (omnetpp/dserver/dsd/PVFS2DSD.cc).
use pfssim.Base.{
  ℕ, zero, suc, ◌+◌, ◌-◌, ◌*◌, ◌/◌, ◌%◌, ◌≤◌, ◌<◌, ◌≡◌, ◌≢◌, refl, subst, inl, inr, ◌⊎◌, ℤ, true,
  false, Option, none, some, List, [], ◌∷◌, leb, find_by, count_by, Bool-cases, arith,
}
use pfssim.Packet.{GPacket, g_packet, pfs_r_data, pfs_r_data_last}
use pfssim.Scheduler.Fifo.{push_wait_q, dispatch_next, has_id, is_full}
use pfssim.Client.Ids.{rid_offset}
use pfssim.Dsd.{Info, Dsd, has_key, read_info, first_subreq, new_req, next_id}
use pfssim.Dsd.Serve.{
  with_answer, and_then, one_packet, serve, Answers, idle, serving, next_packet_lem, next,
  finished_req_more, finished_req_last, next_packet-idle,
}

module _ (limit : ℕ) (m : List (ℕ × Info)) (deg : ℤ) (os : List GPacket) where
  -- A sub-request of the read `p`: the original one at its end, or one of the limit's size before.
  record Sub (p sub : GPacket) : Type 0 where
    reads : sub.read ≡ true
    own : sub.id / rid_offset * rid_offset ≡ p.id
    within : sub.low_offset ≤ p.low_offset + p.size
    which :
        ((sub.id ≡ p.id) × (sub.low_offset + sub.size ≡ p.low_offset + p.size) × (sub.size ≤ limit))
        ⊎ ((sub.id ≢ p.id) × (sub.size ≡ limit) × (sub.low_offset + limit < p.low_offset + p.size))

  -- What the requests of the clients meet.
  abbrev pub IsRequest : GPacket → Type 0
  IsRequest p = (p.read ≡ true) × (p.id % rid_offset ≡ 0) × (count_by (has_id g_packet p.id) os ≡ 0)

  next-Sub :
      (p sub : GPacket) (loff : ℕ)
      → IsRequest p
      → Sub p sub
      → loff < p.low_offset + p.size
      → Sub p (next limit m deg os p sub loff)
  unfolding next_id
  next-Sub p sub loff ok s l = elim (Bool-cases (leb (p.low_offset + p.size) (loff + limit))) [
    | inl e ↦ rw e record {
      reads = ok.0;
      own = omega (arith, ok.1);
      within = omega arith;
      which = inl (refl, omega arith, ground arith);
    }
    | inr e ↦ rw e (
        rw s.reads record {
          reads = ok.0;
          own = ground (arith, s.own);
          within = omega arith;
          which = inr (ground (arith, s.own, ok.1), refl, ground arith);
        })
  ]

  -- The daemon gives its answers and is idle as before.
  abbrev pub Served : GPacket → ℕ → Option (List GPacket × Dsd) → Type 0
  Served p loff none = ⊥
  Served p loff (some (ps, d)) =
      Answers limit (p.low_offset + p.size) p.id loff ps × (d ≡ (idle limit m deg os))

  with_answer-last :
      (p sub : GPacket)
      → sub.read ≡ true
      → sub.id ≡ p.id
      → sub.low_offset + sub.size ≡ p.low_offset + p.size
      → sub.size ≤ limit
      → Served p sub.low_offset (
          with_answer
            (some (record sub { kind = pfs_r_data_last }))
            (some ([], (idle limit m deg os))))
  unfolding with_answer Answers
  with_answer-last p sub r i e l = ((i, refl, e, l, refl, r), refl)

  with_answer-more :
      (p sub : GPacket) (o : Option (List GPacket × Dsd))
      → sub.read ≡ true
      → sub.low_offset + limit < p.low_offset + p.size
      → sub.id / rid_offset * rid_offset ≡ p.id
      → sub.id ≢ p.id
      → sub.size ≡ limit
      → Served p (sub.low_offset + limit) o
      → Served p sub.low_offset (with_answer (some (record sub { kind = pfs_r_data })) o)
  unfolding with_answer Answers
  with_answer-more p sub none r l a b c h = h
  with_answer-more p sub (some ([], d)) r l a b c h = absurd h.0
  with_answer-more p sub (some (q ∷ ps, d)) r l a b c h = (((a, b), refl, c, refl, l, r, h.0), h.1)

  next-low_offset :
      (p fin : GPacket) (loff : ℕ) → (next limit m deg os p fin loff).low_offset ≡ loff
  next-low_offset p fin loff = elim (Bool-cases (leb (p.low_offset + p.size) (loff + limit))) [
    | inl e ↦ rw e refl
    | inr e ↦ rw e refl
  ]

  serve-Served :
      (fuel : ℕ) (p sub : GPacket)
      → 0 < limit
      → IsRequest p
      → Sub p sub
      → p.low_offset + p.size + 1 < sub.low_offset + fuel
      → Served p sub.low_offset (serve fuel (serving limit m deg os p (sub ∷ []) []))
  unfolding serve one_packet and_then
  serve-Served zero p sub h ok s l = absurd (omega (arith, s.within))
  serve-Served (suc zero) p sub h ok s l = absurd (omega (arith, s.within))
  serve-Served (suc (suc fuel)) p sub h ok s l =
      rw (next_packet_lem limit m deg os p sub) (elim s.which [
        | inl (i, e, w) ↦
            rw (finished_req_last limit m deg os p sub s.reads s.own (omega arith) ok.2)
              (rw (next_packet-idle limit m deg os) (with_answer-last p sub s.reads i e w))
        | inr (i, e, w) ↦
            rw (finished_req_more limit m deg os p sub s.reads s.own (omega arith) ok.2) (
              with_answer-more p sub _ s.reads w s.own i e (
                subst
                  (λ loff.
                    Served p loff (serve (suc fuel) (serving limit m deg os p (after sub ∷ []) [])))
                  (omega (arith, low sub))
                  (serve-Served (suc fuel) p (after sub) h ok
                    (next-Sub p sub (sub.low_offset + sub.size) ok s (omega arith))
                    (omega (arith, low sub)))))
      ])
    where
      after : GPacket → GPacket
      after a = next limit m deg os p a (a.low_offset + a.size)

      low : (a : GPacket) → (after a).low_offset ≡ a.low_offset + a.size
      low a = next-low_offset p a (a.low_offset + a.size)

  new_req_lem :
      (p : GPacket)
      → p.read ≡ true
      → find_by (has_key p.id) m ≡ none
      → is_full (record { degree = deg; wait_q = []; os_q = os }) ≡ false
      → new_req p (idle limit m deg os)
        ≡ serving limit m deg os p (first_subreq limit p (read_info limit p) ∷ []) []
  unfolding new_req push_wait_q dispatch_next
  new_req_lem p r f room = rw (r, f, room) refl

  first_subreq-Sub : (p : GPacket) → IsRequest p → Sub p (first_subreq limit p (read_info limit p))
  first_subreq-Sub p ok = elim (Bool-cases (leb (p.low_offset + p.size - p.low_offset) limit)) [
    | inl e ↦ rw e record {
      reads = ok.0;
      own = omega (arith, ok.1);
      within = omega arith;
      which = inl (refl, refl, ground arith);
    }
    | inr e ↦ rw e record {
      reads = ok.0;
      own = omega (arith, ok.1);
      within = omega arith;
      which = inr (omega arith, refl, ground arith);
    }
  ]

  -- A read at a daemon that is idle, with room in its queue and with no other request of the ID, is
  -- served to its end: the answers cover the range of the read one after the other, all of the
  -- limit's size but the last, which is not larger; the last alone is marked as the last and has
  -- the ID of the request, and the others have an ID that belongs to the request; only a range that
  -- is empty has an answer that is empty. The daemon is then as it was. A request's ID is a multiple
  -- of 1000, and the limit is not 0.
  pub new_req-Served :
      (p : GPacket)
      → 0 < limit
      → IsRequest p
      → find_by (has_key p.id) m ≡ none
      → is_full (record { degree = deg; wait_q = []; os_q = os }) ≡ false
      → Served p p.low_offset (serve (suc (suc p.size)) (new_req p (idle limit m deg os)))
  new_req-Served p l ok f room = rw (new_req_lem p ok.0 f room) (
      subst
        (λ loff. Served p loff (
          serve (suc (suc p.size))
            (serving limit m deg os p (first_subreq limit p (read_info limit p) ∷ []) [])))
        low (serve-Served (suc (suc p.size)) p _ l ok (first_subreq-Sub p ok) (omega (arith, low))))
    where
      low : (first_subreq limit p (read_info limit p)).low_offset ≡ p.low_offset
      low = elim (Bool-cases (leb (p.low_offset + p.size - p.low_offset) limit)) [
        | inl e ↦ rw e refl
        | inr e ↦ rw e refl
      ]
