-- ===== src/Scheduler/I2l/Release.antt =====
-- The hand-over from SARC to AVATAR (omnetpp/scheduler/I2L/I2L.cc), over any queue that keeps the
-- contract in AVATAR's place.
use pfssim.Base.{
  ℕ, zero, suc, ◌+◌, ◌<◌, ◌≡◌, refl, sym, ap, subst, ◌∙◌, inl, inr, Bool, true, Option, none, some,
  List, [], ◌∷◌, Arith, length, count_by, count_by-nil, count_by-length, to_list, Option-cases,
  arith,
}
use pfssim.Packet.{BPacket}
use pfssim.Scheduler.IQueue.{IQueue, Contract}
use pfssim.Scheduler.I2l.{
  Sarc, queued, try_to_dispatch, replenish_tokens, Avatar, I2l, released, release_all,
  replenish_and_release,
}
use pfssim.Scheduler.I2l.Laws.{AllIn, Tried, try_to_dispatch-Tried}

module _ (F : Arith) {A : Type 0} (b : BPacket A) (q : IQueue A) (v : Avatar F b q)
    (minimal : F.Double) (c : Contract q) (n : ℕ) where
  abbrev pub State : Type 0
  State = I2l F b q v minimal

  -- AVATAR is in a valid state and takes all that SARC holds.
  pub record IsReady (x : State) : Type 0 where
    pub valid : c.Valid x.avatar
    pub all_ok : AllIn c.Accepts x.sarc.req_q
    pub num : x.sarc.app_num ≡ n

  abbrev pub held : (A → Bool) → State → ℕ
  held p x = count_by p (queued x.sarc.req_q n)

  -- Packets come in, go out of AVATAR's wait queue or move between the levels.
  pub record Moves (x : State) (ins outs : List A) (y : State) : Type 0 where
    pub ready : IsReady y
    pub waits :
        (p : A → Bool)
        → held p x + count_by p (q.waiting x.avatar) + count_by p ins
          ≡ held p y + count_by p (q.waiting y.avatar) + count_by p outs
    pub serves :
        (p : A → Bool)
        → count_by p (q.outstanding y.avatar)
          ≡ count_by p (q.outstanding x.avatar) + count_by p outs

  pub still : (x : State) → IsReady x → Moves x [] [] x
  still x r = record { ready = r; waits = λ p. refl; serves = λ p. omega (arith, count_by-nil p) }

  pub Moves-trans :
      (x y z : State) (ins outs : List A)
      → Moves x ins [] y
      → Moves y [] outs z
      → Moves x ins outs z
  Moves-trans x y z ins outs h k = record {
    ready = k.ready;
    waits = λ p. omega (arith, h.waits p, k.waits p, count_by-nil p);
    serves = λ p. omega (arith, h.serves p, k.serves p, count_by-nil p);
  }

  -- SARC against the number of its lists.
  at_n :
      (p : A → Bool) (x : State) (o : Option A) (s : Sarc F A)
      → IsReady x
      → Tried F b c.Accepts x.sarc o s
      → count_by p (queued x.sarc.req_q n) ≡ count_by p (queued s.req_q n) + count_by p (to_list o)
  at_n p x o s r t =
      subst
        (λ k.
          count_by p (queued x.sarc.req_q k)
          ≡ count_by p (queued s.req_q k) + count_by p (to_list o))
        r.num (t.moved p)

  -- A packet goes from SARC to AVATAR.
  abbrev handed : State → A → Sarc F A → State
  handed x a s = record x { sarc = s; avatar = q.push_wait_q a x.avatar }

  handed-IsReady :
      (x : State) (a : A) (s : Sarc F A)
      → IsReady x
      → Tried F b c.Accepts x.sarc (some a) s
      → IsReady (handed x a s)
  handed-IsReady x a s r t = record {
    valid = c.push-Valid a x.avatar t.ok.0 r.valid;
    all_ok = t.all_ok;
    num = t.same_num ∙ r.num;
  }

  released-Moves :
      (x : State) (o : Option A) (s : Sarc F A) (rest : State → State)
      → IsReady x
      → Tried F b c.Accepts x.sarc o s
      → ((y : State) → IsReady y → Moves y [] [] (rest y))
      → Moves x [] [] (released F b q v minimal x (o, s) rest)
  unfolding released
  released-Moves x none s rest r t k = record {
    ready = record { valid = r.valid; all_ok = t.all_ok; num = t.same_num ∙ r.num };
    waits = λ p. omega (arith, at_n p x none s r t, count_by-nil p);
    serves = λ p. omega (arith, count_by-nil p);
  }
  released-Moves x (some a) s rest r t k =
      let y = handed x a s in
      let ready = handed-IsReady x a s r t in
      let m = λ (p : A → Bool). c.push_moves p a x.avatar t.ok.0 r.valid in
      Moves-trans x y (rest y) [] []
        (record {
          ready = ready;
          waits = λ p. omega (arith, at_n p x (some a) s r t, (m p).0, count_by-nil p);
          serves = λ p. omega (arith, (m p).1, count_by-nil p);
        })
        (k y ready)

  pub release_all-Moves :
      (fuel : ℕ) (x : State) → IsReady x → Moves x [] [] (release_all F b q v minimal fuel x)
  unfolding release_all
  release_all-Moves zero x r = still x r
  release_all-Moves (suc fuel) x r =
      released-Moves x (try_to_dispatch F b x.sarc).0 (try_to_dispatch F b x.sarc).1 _ r
        (try_to_dispatch-Tried F b c.Accepts x.sarc r.all_ok) (release_all-Moves fuel)

  pub replenish_and_release-Moves :
      (x : State) → IsReady x → Moves x [] [] (replenish_and_release F b q v minimal x)
  unfolding replenish_and_release replenish_tokens
  replenish_and_release-Moves x r =
      let y : State = record x { sarc = replenish_tokens F b x.now x.sarc } in
      let s : IsReady y = record { valid = r.valid; all_ok = r.all_ok; num = r.num } in
      let m = release_all-Moves (suc (length (queued x.sarc.req_q x.sarc.app_num))) y s in
      record { ready = m.ready; waits = m.waits; serves = m.serves }

  -- Nothing is left in SARC that has a token.
  abbrev pub IsSpent : State → Type 0
  IsSpent x = (try_to_dispatch F b x.sarc).0 ≡ none

  release_all-IsSpent :
      (fuel : ℕ) (x : State)
      → IsReady x
      → held (λ a. true) x < fuel
      → IsSpent (release_all F b q v minimal fuel x)
  unfolding release_all released
  release_all-IsSpent zero x r l = absurd (omega arith)
  release_all-IsSpent (suc fuel) x r l = elim (Option-cases (try_to_dispatch F b x.sarc).0) [
    | inl e ↦ rw e (elim tried.unmoved [
      | inl (p, f) ↦ absurd (grind (arith, e, f))
      | inr u ↦ subst (λ s. (try_to_dispatch F b s).0 ≡ none) (sym u) e
    ])
    | inr (p, e) ↦
        let found =
          subst (λ o. Tried F b c.Accepts x.sarc o (try_to_dispatch F b x.sarc).1) e tried in
        rw e (
          release_all-IsSpent fuel (handed x p (try_to_dispatch F b x.sarc).1)
            (handed-IsReady x p (try_to_dispatch F b x.sarc).1 r found)
            (omega (
              arith,
              at_n (λ a. true) x (some p) (try_to_dispatch F b x.sarc).1 r found,
              count_by-length (p ∷ []),
            )))
  ]
    where
      tried :
          Tried F b c.Accepts x.sarc (try_to_dispatch F b x.sarc).0 (try_to_dispatch F b x.sarc).1
      tried = try_to_dispatch-Tried F b c.Accepts x.sarc r.all_ok

  -- The loop that hands packets on after a replenishment ends for lack of packets with a token: SARC
  -- gives out no packet then. AVATAR keeps the contract of a queue and takes all that SARC holds.
  pub replenish_and_release-IsSpent :
      (x : State) → IsReady x → IsSpent (replenish_and_release F b q v minimal x)
  unfolding replenish_and_release replenish_tokens
  replenish_and_release-IsSpent x r =
      release_all-IsSpent (suc (length (queued x.sarc.req_q x.sarc.app_num)))
        (record x { sarc = replenish_tokens F b x.now x.sarc })
        (record { valid = r.valid; all_ok = r.all_ok; num = r.num })
        (omega (
          arith,
          count_by-length (queued x.sarc.req_q x.sarc.app_num),
          ap (λ k. count_by (λ a. true) (queued x.sarc.req_q k)) r.num,
        ))
