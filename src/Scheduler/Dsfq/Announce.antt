-- ===== src/Scheduler/Dsfq/Announce.antt =====
-- What DSFQ-A tells the other schedulers: each accepted byte, once.
use pfssim.Base.{
  ℕ, zero, suc, ◌<◌, ◌≡◌, refl, ap, sym, subst, ◌∙◌, inl, inr, List, [], ◌∷◌, none, some, arith,
  Arith, Bool-cases, if◌then◌else◌, update, ◌==◌, ==_iff,
}
use pfssim.Packet.{BPacket}
use pfssim.Scheduler.Dsfq.{Dsfq, SPacket, push_wait_q_a, reset_lengths, propagate_s_packet}

module _ (F : Arith) {A : Type 0} (b : BPacket A) where
  pub push_all_a : List A → Dsfq F A → Dsfq F A
  push_all_a [] q = q
  push_all_a (pkt ∷ pkts) q = push_all_a pkts (push_wait_q_a F b pkt q)

  -- The sizes of an application's packets, added up in the order of their arrival.
  unfoldable pub tally : ℕ → F.Double → List A → F.Double
  tally i t [] = t
  tally i t (pkt ∷ pkts) =
      tally i (if i == b.app pkt then F.add t (F.of_nat (b.size pkt)) else t) pkts

  -- One more packet, in the cell of its application.
  collect_one :
      (l : ℕ → F.Double) (app i : ℕ) (s : F.Double)
      → update l app (F.add (l app) s) i ≡ (if i == app then F.add (l i) s else l i)
  collect_one l app i s = elim (Bool-cases (i == app)) [
    | inl hit ↦ rw hit (ap (λ k. F.add (l k) s) (sym ((==_iff i app).0 hit)))
    | inr miss ↦ rw miss refl
  ]

  push_all_a-collects :
      (pkts : List A) (q : Dsfq F A)
      → let q' = push_all_a pkts q in
        ((i : ℕ) → q'.pending.lengths i ≡ tally i (q.pending.lengths i) pkts)
        × (q'.pending.app_num ≡ q.pending.app_num)
        × (q.pending.src ≡ some q.my_id → q'.pending.src ≡ some q.my_id)
  unfolding push_all_a tally push_wait_q_a
  push_all_a-collects [] q = ((λ i. refl), refl, λ e. e)
  push_all_a-collects (pkt ∷ pkts) q =
      let (told, apps, on) = push_all_a-collects pkts (push_wait_q_a F b pkt q) in
      (
        (λ i.
            told i
            ∙ ap (λ z. tally i z pkts)
                (collect_one q.pending.lengths (b.app pkt) i (F.of_nat (b.size pkt)))),
        apps,
        λ e. on refl,
      )

  push_all_a-active :
      (pkt : A) (pkts : List A) (q : Dsfq F A)
      → (push_all_a (pkt ∷ pkts) q).pending.src ≡ some q.my_id
  unfolding push_all_a push_wait_q_a
  push_all_a-active pkt pkts q = (push_all_a-collects pkts (push_wait_q_a F b pkt q)).2 refl

  reset_lengths-zero : (n : ℕ) (l : ℕ → F.Double) (i : ℕ) → i < n → reset_lengths F n l i ≡ F.zero
  unfolding reset_lengths
  reset_lengths-zero zero l i h = elim h [ ]
  reset_lengths-zero (suc n) l i h = ground (arith, reset_lengths-zero n l i)

  -- What a queue with a source to tell returns and keeps.
  propagate_active :
      (src : ℕ) (q : Dsfq F A)
      → q.pending.src ≡ some src
      → let (r, q') = propagate_s_packet F q in
        (r ≡ some (record q.pending { dst = none }))
        × ((i : ℕ) → i < q.pending.app_num → q'.pending.lengths i ≡ F.zero)
        × ((propagate_s_packet F q').0 ≡ none)
  unfolding propagate_s_packet
  propagate_active src q e =
      rw e (refl, (λ i h. reset_lengths-zero q.pending.app_num q.pending.lengths i h), refl)

  -- After DSFQ-A accepted some packets, the next message comes from this queue and holds for each
  -- application what was pending and then the sizes of its packets, added up in the order of their
  -- arrival; after it, nothing is pending and there is no further message.
  pub announce_once :
      (pkt : A) (pkts : List A) (q : Dsfq F A)
      → let (r, q') = propagate_s_packet F (push_all_a (pkt ∷ pkts) q) in
        ((spkt : SPacket F) × (r ≡ some spkt)
          × (spkt.src ≡ some q.my_id)
          × ((i : ℕ) → spkt.lengths i ≡ tally i (q.pending.lengths i) (pkt ∷ pkts)))
        × ((i : ℕ) → i < q.pending.app_num → q'.pending.lengths i ≡ F.zero)
        × ((propagate_s_packet F q').0 ≡ none)
  announce_once pkt pkts q =
      let on = push_all_a-active pkt pkts q in
      let (told, apps, kept_on) = push_all_a-collects (pkt ∷ pkts) q in
      let (sent, emptied, silent) = propagate_active q.my_id (push_all_a (pkt ∷ pkts) q) on in
      ((_, sent, on, told), (λ i h. emptied i (subst (λ n. i < n) (sym apps) h)), silent)
