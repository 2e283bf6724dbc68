-- ===== src/Scheduler/Sfq/Tags.antt =====
-- The tags of the jobs that wait: they follow one another, and none is before the virtual time.
use pfssim.Base.{
  ℤ, ℕ, ◌≤◌, ◌<◌, ◌≡◌, refl, subst, inl, inr, true, false, List, [], ◌∷◌, ◌++◌, arith, Arith,
  IsOrder, IsTagArith, Bool-cases, if◌then◌else◌, update, ◌==◌,
}
use native.Mathlib.Decide.{dec_lt}
use pfssim.Packet.{BPacket}
use pfssim.Scheduler.Sfq.{
  init, Job, Sfq, back_ftag, start_tag, retag, serve, dispatch_next, new_job, push_wait_q,
}
use pfssim.Scheduler.Sfq.Pick.{NotBefore}
use pfssim.Scheduler.Sfq.Dispatch.{dispatch_next_lem}

module _ (F : Arith) {A : Type 0} where
  -- Each job starts where the one before it finishes, and finishes no earlier than it starts.
  abbrev pub Linked : F.Double → List (Job F A) → Type 0
  Linked t [] = Unit
  Linked t (j ∷ js) = (j.stag ≡ t) × (F.lt j.ftag j.stag ≡ false) × Linked j.ftag js

  abbrev pub Chained : F.Double → List (Job F A) → Type 0
  Chained v [] = Unit
  Chained v (j ∷ js) = (F.lt j.stag v ≡ false) × (F.lt j.ftag j.stag ≡ false) × Linked j.ftag js

  -- The states that the calls reach: applications are below `appNum`.
  pub record IsTagged (q : Sfq F A) : Type 0 where
    pub start_in : q.startpos < q.app_num
    pub outside : (i : ℕ) → q.app_num ≤ i → q.wait_q i ≡ []
    pub weighted : (i : ℕ) → i < q.app_num → F.lt F.zero (q.weight i) ≡ true
    pub chained : (i : ℕ) → Chained q.vtime (q.wait_q i)

  Linked-append :
      (t : F.Double) (js : List (Job F A)) (k : Job F A)
      → Linked t js
      → k.stag ≡ back_ftag F t js
      → F.lt k.ftag k.stag ≡ false
      → Linked t (js ++ k ∷ [])
  unfolding back_ftag
  Linked-append t [] k l e g = (e, g, tt)
  Linked-append t (j ∷ js) k l e g = (l.0, l.1, Linked-append j.ftag js k l.2 e g)

  Chained-append :
      (v t : F.Double) (js : List (Job F A)) (k : Job F A)
      → Chained v js
      → F.lt t v ≡ false
      → k.stag ≡ back_ftag F t js
      → F.lt k.ftag k.stag ≡ false
      → Chained v (js ++ k ∷ [])
  unfolding back_ftag
  Chained-append v t [] k c h e g = (rw e h, g, tt)
  Chained-append v t (j ∷ js) k c h e g = (c.0, c.1, Linked-append j.ftag js k c.2 e g)

module _ (F : Arith) (o : IsOrder F) where
  idle_not_before : (v m : F.Double) → F.lt (if F.lt v m then m else v) v ≡ false
  idle_not_before v m = elim (Bool-cases (F.lt v m)) [
    | inl e ↦ rw e (o.lt_asymm v m e)
    | inr e ↦ rw e (o.lt_irrefl v)
  ]

module _ (F : Arith) (o : IsTagArith F) {A : Type 0} where
  open o use {order, of_nat_nonneg, share_grows, sub_self, add_zero}

  -- On a chained queue the repair of the tags changes nothing.
  retag-Linked : (job : Job F A) (js : List (Job F A)) → Linked F job.ftag js → retag F job js ≡ js
  unfolding retag
  retag-Linked job [] l = refl
  retag-Linked job (k ∷ ks) l = ground (arith, sub_self job.ftag, add_zero k.ftag)

  Chained-later :
      (v w : F.Double) (js : List (Job F A))
      → ((job : Job F A) (ks : List (Job F A)) → js ≡ job ∷ ks → F.lt job.stag w ≡ false)
      → Chained F v js
      → Chained F w js
  Chained-later v w [] h c = tt
  Chained-later v w (j ∷ js) h c = (h j js refl, c.1, c.2)

  -- One queue is written, and the others keep what they had.
  pub Chained-update :
      (v : F.Double) (w : ℕ → List (Job F A)) (i : ℕ) (l : List (Job F A))
      → Chained F v l
      → ((j : ℕ) → Chained F v (w j))
      → (j : ℕ) → Chained F v (update w i l j)
  Chained-update v w i l c rest j = elim (Bool-cases (j == i)) [
    | inl e ↦ rw e c
    | inr e ↦ rw e (rest j)
  ]

  pub outside-update :
      (n : ℕ) (w : ℕ → List (Job F A)) (i : ℕ) (l : List (Job F A))
      → i < n
      → ((j : ℕ) → n ≤ j → w j ≡ [])
      → (j : ℕ) → n ≤ j
      → update w i l j ≡ []
  outside-update n w i l h out j k = ground (arith, out j k)

  pub push_wait_q-IsTagged :
      (b : BPacket A) (pkt : A) (q : Sfq F A)
      → b.app pkt < q.app_num
      → IsTagged F q
      → IsTagged F (push_wait_q F b pkt q)
  unfolding push_wait_q start_tag
  push_wait_q-IsTagged b pkt q h t = record {
    start_in = t.start_in;
    outside = outside-update q.app_num q.wait_q (b.app pkt) _ h t.outside;
    weighted = t.weighted;
    chained =
        Chained-update q.vtime q.wait_q (b.app pkt) _
          (Chained-append F q.vtime _ (q.wait_q (b.app pkt)) (new_job F b q pkt)
            (t.chained (b.app pkt)) (idle_not_before F order q.vtime (q.max_ftags (b.app pkt))) refl
            (share_grows _ _ _ (t.weighted (b.app pkt) h) (of_nat_nonneg (b.size pkt))))
          t.chained;
  }

  Chained-retag :
      (job : Job F A) (js : List (Job F A))
      → F.lt job.ftag job.stag ≡ false
      → Linked F job.ftag js
      → Chained F job.stag (retag F job js)
  Chained-retag job js g l = rw (retag-Linked job js l) (first js l)
    where
      first : (ks : List (Job F A)) → Linked F job.ftag ks → Chained F job.stag ks
      first [] m = tt
      first (k ∷ ks) m = (rw m.0 g, m.1, m.2)

  others :
      (q : Sfq F A) (job : Job F A)
      → IsTagged F q
      → ((j : ℕ) → j < q.app_num → NotBefore F order q job.stag j)
      → (j : ℕ) → NotBefore F order q job.stag j
  others q job t least j k ks e = elim (dec_lt j q.app_num) [
    | yes below ↦ least j below k ks e
    | no past ↦ let none_there : q.wait_q j ≡ [] = t.outside j (omega arith) in cc
  ]

  serve-IsTagged :
      (q : Sfq F A) (i : ℕ) (job : Job F A) (js : List (Job F A))
      → q.wait_q i ≡ job ∷ js
      → i < q.app_num
      → ((j : ℕ) → j < q.app_num → NotBefore F order q job.stag j)
      → IsTagged F q
      → IsTagged F (serve F q i (job ∷ js)).1
        × (F.lt (serve F q i (job ∷ js)).1.vtime q.vtime ≡ false)
  unfolding serve
  serve-IsTagged q i job js front below least t =
      let c : Chained F q.vtime (job ∷ js) = subst (Chained F q.vtime) front (t.chained i) in
      (
        record {
          start_in = ground arith;
          outside = outside-update q.app_num q.wait_q i _ below t.outside;
          weighted = t.weighted;
          chained =
              Chained-update job.stag q.wait_q i (retag F job js) (Chained-retag job js c.1 c.2)
                (λ j.
                  Chained-later q.vtime job.stag (q.wait_q j) (others q job t least j)
                    (t.chained j));
        },
        c.0,
      )

  -- A dispatch keeps the tags in order and does not turn the virtual time back.
  pub dispatch_next-IsTagged :
      (q : Sfq F A)
      → IsTagged F q
      → IsTagged F (dispatch_next F q).1 × (F.lt (dispatch_next F q).1.vtime q.vtime ≡ false)
  dispatch_next-IsTagged q t = elim (dispatch_next_lem F order q t.start_in) [
    | inl (e, why) ↦ rw e (t, order.lt_irrefl q.vtime)
    | inr (i, job, js, front, below, least, room, e) ↦
        rw e (serve-IsTagged q i job js front below least t)
  ]

  -- A new queue with positive weights has its tags in order.
  pub init-IsTagged :
      (deg : ℤ) (n : ℕ) (w : ℕ → F.Double)
      → 0 < n
      → ((i : ℕ) → i < n → F.lt F.zero (w i) ≡ true)
      → IsTagged F (init F {A = A} deg n w)
  unfolding init
  init-IsTagged deg n w h positive = record {
    start_in = h;
    outside = λ i past. refl;
    weighted = positive;
    chained = λ i. tt;
  }
