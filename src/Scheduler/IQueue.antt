-- ===== src/Scheduler/IQueue.antt =====
-- omnetpp/scheduler/IQueue/IQueue.h: what the callers of a queue use, and what they rely on.
use pfssim.Base.{
  ℕ, ◌+◌, ◌≡◌, List, [], ◌∷◌, ◌++◌, Bool, Option, arith, All, count_by, count_by-append,
  count_by-cons, to_list,
}

-- The virtual methods over a state of the queue's own. `none` is NULL.
pub record IQueue (A : Type 0) : Type 1 where
  pub State : Type 0
  pub push_wait_q : A → State → State
  pub dispatch_next : State → Option A × State
  pub pop_os_q : ℕ → State → Option A × State
  -- The packets that wait, and those that are dispatched and not yet popped.
  pub waiting : State → List A
  pub outstanding : State → List A

pub data Call (A : Type 0) : Type 0 where
  pushes : A → Call A
  dispatches : Call A
  pops : ℕ → Call A

-- The packets that calls push.
abbrev pub pushed : {A : Type 0} → List (Call A) → List A
pushed [] = []
pushed (pushes a ∷ cs) = a ∷ pushed cs
pushed (dispatches ∷ cs) = pushed cs
pushed (pops id ∷ cs) = pushed cs

-- A queue that takes every packet takes those.
pub accepted : {A : Type 0} (cs : List (Call A)) → All (λ a. Unit {0}) (pushed cs)
accepted [] = tt
accepted (pushes a ∷ cs) = (tt, accepted cs)
accepted (dispatches ∷ cs) = accepted cs
accepted (pops id ∷ cs) = accepted cs

-- What a run of calls returns: the packets dispatched and popped, in order, and the last state.
pub record Outcome (A S : Type 0) : Type 0 where
  pub dispatched : List A
  pub popped : List A
  pub state : S

module _ {A : Type 0} (q : IQueue A) where
  unfoldable pub run : q.State → List (Call A) → Outcome A q.State
  run s [] = record { dispatched = []; popped = []; state = s }
  run s (pushes a ∷ cs) = run (q.push_wait_q a s) cs
  run s (dispatches ∷ cs) =
      let (r, s') = q.dispatch_next s in
      let rest = run s' cs in record rest { dispatched = to_list r ++ rest.dispatched }
  run s (pops id ∷ cs) =
      let (r, s') = q.pop_os_q id s in
      let rest = run s' cs in record rest { popped = to_list r ++ rest.popped }

  -- What a queue owes its callers, in the states and on the packets that it is made for: it
  -- neither loses a packet nor makes one up, and moves it only as the call says. Packets are
  -- counted by every Boolean test.
  pub record Contract : Type 1 where
    pub Valid : q.State → Type 0
    pub Accepts : A → Type 0
    pub push-Valid : (a : A) (s : q.State) → Accepts a → Valid s → Valid (q.push_wait_q a s)
    pub dispatch-Valid : (s : q.State) → Valid s → Valid (q.dispatch_next s).1
    pub pop-Valid : (id : ℕ) (s : q.State) → Valid s → Valid (q.pop_os_q id s).1
    pub push_moves :
        (p : A → Bool) (a : A) (s : q.State)
        → Accepts a
        → Valid s
        → (count_by p (q.waiting (q.push_wait_q a s))
            ≡ count_by p (q.waiting s) + count_by p (a ∷ []))
          × (count_by p (q.outstanding (q.push_wait_q a s)) ≡ count_by p (q.outstanding s))
    pub dispatch_moves :
        (p : A → Bool) (s : q.State)
        → Valid s
        → let (r, s') = q.dispatch_next s in
          (count_by p (q.waiting s) ≡ count_by p (q.waiting s') + count_by p (to_list r))
          × (count_by p (q.outstanding s') ≡ count_by p (q.outstanding s) + count_by p (to_list r))
    pub pop_moves :
        (p : A → Bool) (id : ℕ) (s : q.State)
        → Valid s
        → let (r, s') = q.pop_os_q id s in
          (count_by p (q.waiting s') ≡ count_by p (q.waiting s))
          × (count_by p (q.outstanding s) ≡ count_by p (q.outstanding s') + count_by p (to_list r))

module _ {A : Type 0} (q : IQueue A) (c : Contract q) where
  open c use {
    Valid, Accepts, push-Valid, dispatch-Valid, pop-Valid, push_moves, dispatch_moves, pop_moves,
  }

  -- Over any calls, what waited, was outstanding or was pushed is what was popped, still waits or
  -- is still outstanding, as often.
  pub run_conserves :
      (p : A → Bool) (s : q.State) (cs : List (Call A))
      → All Accepts (pushed cs)
      → Valid s
      → let o = run q s cs in
        (count_by p (q.waiting s) + count_by p (q.outstanding s) + count_by p (pushed cs)
          ≡ count_by p o.popped
            + count_by p (q.waiting o.state)
            + count_by p (q.outstanding o.state))
        × Valid o.state
  unfolding run
  run_conserves p s [] ok v = (omega arith, v)
  run_conserves p s (pushes a ∷ cs) ok v =
      let (kept, valid) = run_conserves p (q.push_wait_q a s) cs ok.1 (push-Valid a s ok.0 v) in
      (omega (arith, kept, push_moves p a s ok.0 v, count_by-cons p a (pushed cs)), valid)
  run_conserves p s (dispatches ∷ cs) ok v =
      let (kept, valid) = run_conserves p (q.dispatch_next s).1 cs ok (dispatch-Valid s v) in
      (omega (arith, kept, dispatch_moves p s v), valid)
  run_conserves p s (pops id ∷ cs) ok v =
      let (kept, valid) = run_conserves p (q.pop_os_q id s).1 cs ok (pop-Valid id s v) in
      (
        omega (
          arith,
          kept,
          pop_moves p id s v,
          count_by-append p (to_list (q.pop_os_q id s).0) (run q (q.pop_os_q id s).1 cs).popped,
        ),
        valid,
      )
