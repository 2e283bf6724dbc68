-- ===== src/Scheduler/Dsfq/Tags.antt =====
-- A message of another scheduler moves finish tags forward and keeps all else in order.
use pfssim.Base.{
  ℕ, zero, suc, ◌≤◌, ◌<◌, ◌≡◌, refl, ap, sym, subst, ◌∙◌, ==_iff, inl, inr, true, false, List, [],
  ◌∷◌, map, arith, Arith, IsTagArith, Bool-cases, update, ◌==◌,
}
use pfssim.Scheduler.Sfq.{Sfq, Job}
use pfssim.Scheduler.Sfq.Tags.{Linked, Chained, IsTagged, Chained-update, outside-update}
use pfssim.Scheduler.Dsfq.{
  Dsfq, SPacket, bump_back, bump, insert_one, insert_upto, receive_s_packet_insert_back,
}

module _ (F : Arith) (o : IsTagArith F) where
  open o use {order, share_grows}

  -- A finish tag that moves forward stays past its start tag.
  later :
      (s f w d : F.Double)
      → F.lt F.zero w ≡ true
      → F.lt d F.zero ≡ false
      → F.lt f s ≡ false
      → F.lt (F.add f (F.div d w)) s ≡ false
  later s f w d pos nonneg h =
      order.nlt_trans s f (F.add f (F.div d w)) h (share_grows f w d pos nonneg)

module _ (F : Arith) (o : IsTagArith F) {A : Type 0} where
  Linked-bump_back :
      (w d t : F.Double) (js : List (Job F A))
      → F.lt F.zero w ≡ true
      → F.lt d F.zero ≡ false
      → Linked F t js
      → Linked F t (bump_back F (F.div d w) js)
  unfolding bump_back
  Linked-bump_back w d t [] pos nonneg l = tt
  Linked-bump_back w d t (j ∷ []) pos nonneg l =
      (l.0, later F o j.stag j.ftag w d pos nonneg l.1, tt)
  Linked-bump_back w d t (j ∷ k ∷ js) pos nonneg l =
      (l.0, l.1, Linked-bump_back w d j.ftag (k ∷ js) pos nonneg l.2)

  Chained-bump_back :
      (w d v : F.Double) (js : List (Job F A))
      → F.lt F.zero w ≡ true
      → F.lt d F.zero ≡ false
      → Chained F v js
      → Chained F v (bump_back F (F.div d w) js)
  unfolding bump_back
  Chained-bump_back w d v [] pos nonneg c = tt
  Chained-bump_back w d v (j ∷ []) pos nonneg c =
      (c.0, later F o j.stag j.ftag w d pos nonneg c.1, tt)
  Chained-bump_back w d v (j ∷ k ∷ js) pos nonneg c =
      (c.0, c.1, Linked-bump_back w d j.ftag (k ∷ js) pos nonneg c.2)

  -- What one round and the loop leave alone.
  abbrev Kept : Sfq F A → Sfq F A → Type 0
  Kept q q' =
      (q'.app_num ≡ q.app_num)
      × (q'.vtime ≡ q.vtime)
      × (q'.os_q ≡ q.os_q)
      × ((i : ℕ) → map (λ j. j.pkt) (q'.wait_q i) ≡ map (λ j. j.pkt) (q.wait_q i))

  packets-bump_back :
      (d : F.Double) (js : List (Job F A))
      → map (λ j. j.pkt) (bump_back F d js) ≡ map (λ j. j.pkt) js
  unfolding bump_back
  packets-bump_back d [] = refl
  packets-bump_back d (j ∷ []) = refl
  packets-bump_back d (j ∷ k ∷ js) = ap (λ l. j.pkt ∷ l) (packets-bump_back d (k ∷ js))

  same_packets :
      (d : F.Double) (j : Job F A) (js : List (Job F A)) (q : Sfq F A) (i : ℕ)
      → (j ∷ js) ≡ q.wait_q i
      → (k : ℕ)
      → map (λ j. j.pkt) (update q.wait_q i (bump_back F (F.div d (q.weight i)) (j ∷ js)) k)
        ≡ map (λ j. j.pkt) (q.wait_q k)
  same_packets d j js q i e k = elim (Bool-cases (k == i)) [
    | inl hit ↦ rw hit (
        packets-bump_back (F.div d (q.weight i)) (j ∷ js)
        ∙ ap (map (λ j. j.pkt)) e
        ∙ sym (ap (λ z. map (λ j. j.pkt) (q.wait_q z)) ((==_iff k i).0 hit)))
    | inr miss ↦ rw miss refl
  ]

  bump-IsTagged :
      (i : ℕ) (d : F.Double) (l : List (Job F A)) (q : Sfq F A)
      → l ≡ q.wait_q i
      → i < q.app_num
      → F.lt d F.zero ≡ false
      → IsTagged F q
      → IsTagged F (bump F (bump_back F) i (F.div d (q.weight i)) l q)
        × Kept q (bump F (bump_back F) i (F.div d (q.weight i)) l q)
  unfolding bump
  bump-IsTagged i d [] q e below nonneg t = (
    record {
      start_in = t.start_in;
      outside = t.outside;
      weighted = t.weighted;
      chained = t.chained;
    },
    (refl, refl, refl, λ k. refl),
  )
  bump-IsTagged i d (j ∷ js) q e below nonneg t = (
    record {
      start_in = t.start_in;
      outside = outside-update F o q.app_num q.wait_q i _ below t.outside;
      weighted = t.weighted;
      chained =
          Chained-update F o q.vtime q.wait_q i _
            (Chained-bump_back (q.weight i) d q.vtime (j ∷ js) (t.weighted i below) nonneg
              (subst (Chained F q.vtime) (sym e) (t.chained i)))
            t.chained;
    },
    (refl, refl, refl, same_packets d j js q i e),
  )

  Kept-trans : (q q' q'' : Sfq F A) → Kept q q' → Kept q' q'' → Kept q q''
  Kept-trans q q' q'' (a, v, s, w) (a', v', s', w') = (a' ∙ a, v' ∙ v, s' ∙ s, λ i. w' i ∙ w i)

  insert_one-IsTagged :
      (spkt : SPacket F) (i : ℕ) (q : Sfq F A)
      → i < q.app_num
      → F.lt (spkt.lengths i) F.zero ≡ false
      → IsTagged F q
      → IsTagged F (insert_one F (bump_back F) spkt i q)
        × Kept q (insert_one F (bump_back F) spkt i q)
  unfolding insert_one
  insert_one-IsTagged spkt i q below nonneg t = elim (Bool-cases (F.eq (spkt.lengths i) F.zero)) [
    | inl none_told ↦ rw none_told (t, (refl, refl, refl, λ k. refl))
    | inr told ↦ rw told (bump-IsTagged i (spkt.lengths i) (q.wait_q i) q refl below nonneg t)
  ]

  insert_upto-IsTagged :
      (spkt : SPacket F) (n : ℕ) (q : Sfq F A)
      → n ≤ q.app_num
      → ((i : ℕ) → F.lt (spkt.lengths i) F.zero ≡ false)
      → IsTagged F q
      → IsTagged F (insert_upto F (bump_back F) spkt n q)
        × Kept q (insert_upto F (bump_back F) spkt n q)
  unfolding insert_upto
  insert_upto-IsTagged spkt zero q h nonneg t = (t, (refl, refl, refl, λ k. refl))
  insert_upto-IsTagged spkt (suc n) q h nonneg t =
      let (t', kept) = insert_upto-IsTagged spkt n q (omega arith) nonneg t in
      let in_range : n < (insert_upto F (bump_back F) spkt n q).app_num = omega (arith, kept.0) in
      let (t'', kept') =
        insert_one-IsTagged spkt n (insert_upto F (bump_back F) spkt n q) in_range (nonneg n) t' in
      (
        t'',
        Kept-trans q (insert_upto F (bump_back F) spkt n q)
            (insert_one F (bump_back F) spkt n (insert_upto F (bump_back F) spkt n q)) kept kept',
      )

  -- A message of non-negative lengths for known applications keeps the tags of a DSFQ-A or DSFQ-D
  -- queue in order, and changes neither the virtual time, the outstanding jobs nor which packets
  -- wait in which queue.
  pub receive_back-IsTagged :
      (spkt : SPacket F) (q : Dsfq F A)
      → spkt.app_num ≤ q.sfq.app_num
      → ((i : ℕ) → F.lt (spkt.lengths i) F.zero ≡ false)
      → IsTagged F q.sfq
      → let s' = (receive_s_packet_insert_back F spkt q).sfq in
        IsTagged F s'
        × (s'.vtime ≡ q.sfq.vtime)
        × (s'.os_q ≡ q.sfq.os_q)
        × ((i : ℕ) → map (λ j. j.pkt) (s'.wait_q i) ≡ map (λ j. j.pkt) (q.sfq.wait_q i))
  unfolding receive_s_packet_insert_back
  receive_back-IsTagged spkt q h nonneg t =
      let (t', kept) = insert_upto-IsTagged spkt spkt.app_num q.sfq h nonneg t in
      (t', kept.1, kept.2, kept.3)
