-- ===== src/Scheduler/I2l/Refines.antt =====
-- I2L (omnetpp/scheduler/I2L/I2L.cc) keeps the contract of a queue, if AVATAR does.
use pfssim.Base.{
  ℕ, ◌+◌, ◌<◌, ◌≡◌, refl, ap, ◌∙◌, inl, inr, Bool, true, false, not, ◌&&◌, Option, none, some, List,
  [], ◌∷◌, ◌++◌, if◌then◌else◌, Arith, Bool-cases, All, count_by, count_by-append, count_by-nil,
  to_list, update, arith,
}
use pfssim.Packet.{BPacket}
use pfssim.Scheduler.IQueue.{IQueue, Contract, Call, pushed, run, run_conserves}
use pfssim.Scheduler.I2l.{
  queued, has_token, take_token, new_arrival, replenish_and_release, Avatar, arrived, push_wait_q,
  again, refused, passed_on, dispatch_next, pop_os_q, i2l_queue,
}
use pfssim.Scheduler.I2l.Counts.{queued-update}
use pfssim.Scheduler.I2l.Laws.{update-AllIn, All-snoc}
use pfssim.Scheduler.I2l.Release.{
  State, IsReady, held, Moves, Moves-trans, replenish_and_release-Moves,
}

module _ (F : Arith) {A : Type 0} (b : BPacket A) (q : IQueue A) (v : Avatar F b q)
    (minimal : F.Double) (c : Contract q) (n : ℕ) where
  abbrev S : Type 0
  S = State F b q v minimal c n

  abbrev Ready : S → Type 0
  Ready = IsReady F b q v minimal c n

  abbrev Goes : S → List A → List A → S → Type 0
  Goes = Moves F b q v minimal c n

  avatar_push-Goes :
      (a : A) (x : S) (cur : ℕ → F.Double)
      → c.Accepts a
      → Ready x
      → Goes x
          (a ∷ [])
          []
          (record x { sarc = record x.sarc { cur_token = cur }; avatar = q.push_wait_q a x.avatar })
  avatar_push-Goes a x cur ok r = record {
    ready = record { valid = c.push-Valid a x.avatar ok r.valid; all_ok = r.all_ok; num = r.num };
    waits = λ p. omega (arith, (c.push_moves p a x.avatar ok r.valid).0, count_by-nil p);
    serves = λ p. omega (arith, (c.push_moves p a x.avatar ok r.valid).1, count_by-nil p);
  }

  abbrev put_back : A → S → S
  put_back a x = record x {
    sarc = record x.sarc {
      req_q = update x.sarc.req_q (b.app a) (x.sarc.req_q (b.app a) ++ a ∷ []);
    };
  }

  put_back-Goes :
      (a : A) (x : S) → c.Accepts a → b.app a < n → Ready x → Goes x (a ∷ []) [] (put_back a x)
  put_back-Goes a x ok h r = record {
    ready = record {
      valid = r.valid;
      all_ok =
          update-AllIn c.Accepts x.sarc.req_q (b.app a) _ r.all_ok
            (All-snoc c.Accepts (x.sarc.req_q (b.app a)) a (r.all_ok (b.app a)) ok);
      num = r.num;
    };
    waits = λ p. omega (
      arith,
      queued-update p x.sarc.req_q (b.app a) (x.sarc.req_q (b.app a) ++ a ∷ []) n h,
      count_by-append p (x.sarc.req_q (b.app a)) (a ∷ []),
      count_by-nil p,
    );
    serves = λ p. omega (arith, count_by-nil p);
  }

  either-Goes :
      (i : Bool) (x y z : S) (ins : List A)
      → Goes x ins [] y
      → Goes x ins [] z
      → Goes x ins [] (if i then y else z)
  either-Goes true x y z ins h k = h
  either-Goes false x y z ins h k = k

  push_wait_q-Goes :
      (a : A) (x : S)
      → c.Accepts a
      → b.app a < n
      → Ready x
      → Goes x (a ∷ []) [] (push_wait_q F b q v minimal a x)
  unfolding push_wait_q arrived new_arrival
  push_wait_q-Goes a x ok h r = elim (Bool-cases (has_token F b x.sarc a)) [
    | inl f ↦ rw f (avatar_push-Goes a x (take_token F b x.sarc (b.app a)) ok r)
    | inr f ↦
        let k = put_back-Goes a x ok h r in
        rw f (
          either-Goes x.idle_status x _ _ (a ∷ [])
            (Moves-trans F b q v minimal c n x (put_back a x) _ (a ∷ []) [] k
              (replenish_and_release-Moves F b q v minimal c n (put_back a x) k.ready))
            k)
  ]

  -- AVATAR's dispatch.
  avatar_dispatch-Goes :
      (x : S) (idle : Bool)
      → Ready x
      → Goes x []
          (to_list (q.dispatch_next x.avatar).0)
          (record x { avatar = (q.dispatch_next x.avatar).1; idle_status = idle })
  avatar_dispatch-Goes x idle r = record {
    ready = record { valid = c.dispatch-Valid x.avatar r.valid; all_ok = r.all_ok; num = r.num };
    waits = λ p. omega (arith, (c.dispatch_moves p x.avatar r.valid).0, count_by-nil p);
    serves = λ p. omega (arith, (c.dispatch_moves p x.avatar r.valid).1);
  }

  set_idle-Goes :
      (x y : S) (idle : Bool) → Goes x [] [] y → Goes x [] [] (record y { idle_status = idle })
  set_idle-Goes x y idle k = record {
    ready = record { valid = k.ready.valid; all_ok = k.ready.all_ok; num = k.ready.num };
    waits = k.waits;
    serves = k.serves;
  }

  refused-Goes :
      (x y : S)
      → Ready y
      → Goes x [] [] y
      → Goes x [] (to_list (refused F b q v minimal y).0) (refused F b q v minimal y).1
  unfolding refused again
  refused-Goes x y r k = elim (Bool-cases (not y.idle_status && v.idle y.avatar)) [
    | inl e ↦
        let z : S = replenish_and_release F b q v minimal y in
        let m = replenish_and_release-Moves F b q v minimal c n y r in
        rw e (
          Moves-trans F b q v minimal c n x z _ [] _
            (Moves-trans F b q v minimal c n x y z [] [] k m)
            (avatar_dispatch-Goes z (v.idle (q.dispatch_next z.avatar).1) m.ready))
    | inr e ↦ rw e (set_idle-Goes x y (v.idle y.avatar) k)
  ]

  dispatch_next-Goes :
      (x : S)
      → Ready x
      → Goes x [] (to_list (dispatch_next F b q v minimal x).0) (dispatch_next F b q v minimal x).1
  unfolding dispatch_next passed_on
  dispatch_next-Goes x r =
      go (q.dispatch_next x.avatar).0 (q.dispatch_next x.avatar).1 refl
        (avatar_dispatch-Goes x x.idle_status r)
    where
      go :
          (o : Option A) (a : q.State)
          → q.dispatch_next x.avatar ≡ (o, a)
          → Goes x [] (to_list o) (record x { avatar = a })
          → Goes x []
              (to_list (passed_on F b q v minimal x (o, a)).0)
              (passed_on F b q v minimal x (o, a)).1
      go none a e k = refused-Goes x (record x { avatar = a }) k.ready k
      go (some p) a e k = k

  waiting-held :
      (p : A → Bool) (x : S)
      → Ready x
      → count_by p (queued x.sarc.req_q x.sarc.app_num ++ q.waiting x.avatar)
        ≡ held F b q v minimal c n p x + count_by p (q.waiting x.avatar)
  waiting-held p x r =
      count_by-append p (queued x.sarc.req_q x.sarc.app_num) (q.waiting x.avatar)
      ∙ ap (λ k. count_by p (queued x.sarc.req_q k) + count_by p (q.waiting x.avatar)) r.num

  pub pushed_moves :
      (p : A → Bool) (x y : S) (ins : List A)
      → Ready x
      → Goes x ins [] y
      → (count_by p (queued y.sarc.req_q y.sarc.app_num ++ q.waiting y.avatar)
          ≡ count_by p (queued x.sarc.req_q x.sarc.app_num ++ q.waiting x.avatar) + count_by p ins)
        × (count_by p (q.outstanding y.avatar) ≡ count_by p (q.outstanding x.avatar))
  pushed_moves p x y ins r k = (
    omega (arith, k.waits p, waiting-held p x r, waiting-held p y k.ready, count_by-nil p),
    omega (arith, k.serves p, count_by-nil p),
  )

  dispatched_moves :
      (p : A → Bool) (x y : S) (outs : List A)
      → Ready x
      → Goes x [] outs y
      → (count_by p (queued x.sarc.req_q x.sarc.app_num ++ q.waiting x.avatar)
          ≡ count_by p (queued y.sarc.req_q y.sarc.app_num ++ q.waiting y.avatar) + count_by p outs)
        × (count_by p (q.outstanding y.avatar)
            ≡ count_by p (q.outstanding x.avatar) + count_by p outs)
  dispatched_moves p x y outs r k = (
    omega (arith, k.waits p, waiting-held p x r, waiting-held p y k.ready, count_by-nil p),
    k.serves p,
  )

  popped_moves :
      (p : A → Bool) (id : ℕ) (x : S)
      → Ready x
      → (count_by p (queued x.sarc.req_q x.sarc.app_num ++ q.waiting (q.pop_os_q id x.avatar).1)
          ≡ count_by p (queued x.sarc.req_q x.sarc.app_num ++ q.waiting x.avatar))
        × (count_by p (q.outstanding x.avatar)
            ≡ count_by p (q.outstanding (q.pop_os_q id x.avatar).1)
              + count_by p (to_list (q.pop_os_q id x.avatar).0))
  popped_moves p id x r =
      let m = c.pop_moves p id x.avatar r.valid in
      (
        omega (
          arith,
          m.0,
          count_by-append p (queued x.sarc.req_q x.sarc.app_num) (q.waiting x.avatar),
          count_by-append p (queued x.sarc.req_q x.sarc.app_num)
              (q.waiting (q.pop_os_q id x.avatar).1),
        ),
        m.1,
      )

  -- I2L is a queue that keeps the contract of `IQueue`, for the applications that it knows.
  i2l_contract : Contract (i2l_queue F b q v minimal)
  unfolding pop_os_q
  i2l_contract = record {
    Valid = Ready;
    Accepts = λ a. c.Accepts a × (b.app a < n);
    push-Valid = λ a x ok r. (push_wait_q-Goes a x ok.0 ok.1 r).ready;
    dispatch-Valid = λ x r. (dispatch_next-Goes x r).ready;
    pop-Valid = λ id x r. record {
      valid = c.pop-Valid id x.avatar r.valid;
      all_ok = r.all_ok;
      num = r.num;
    };
    push_moves = λ p a x ok r.
        pushed_moves p x (push_wait_q F b q v minimal a x) (a ∷ []) r
          (push_wait_q-Goes a x ok.0 ok.1 r);
    dispatch_moves = λ p x r.
        dispatched_moves p x (dispatch_next F b q v minimal x).1
          (to_list (dispatch_next F b q v minimal x).0) r (dispatch_next-Goes x r);
    pop_moves = λ p id x r. popped_moves p id x r;
  }

  -- Over any calls at I2L, every packet that waited, was outstanding or was pushed is popped, still
  -- waits at one of the two levels or is still outstanding, as often. The packets are those that
  -- AVATAR accepts, of applications that SARC knows; AVATAR keeps the contract of a queue.
  pub i2l_run_conserves :
      (p : A → Bool) (x : S) (cs : List (Call A))
      → All (λ a. c.Accepts a × (b.app a < n)) (pushed cs)
      → Ready x
      → let o = run (i2l_queue F b q v minimal) x cs in
        (count_by p (queued x.sarc.req_q x.sarc.app_num ++ q.waiting x.avatar)
            + count_by p (q.outstanding x.avatar)
            + count_by p (pushed cs)
          ≡ count_by p o.popped
            + count_by p
                (queued o.state.sarc.req_q o.state.sarc.app_num ++ q.waiting o.state.avatar)
            + count_by p (q.outstanding o.state.avatar))
        × Ready o.state
  unfolding i2l_contract
  i2l_run_conserves p x cs ok r = run_conserves (i2l_queue F b q v minimal) i2l_contract p x cs ok r
