-- ===== src/Scheduler/I2l/Timed.antt =====
-- I2L (omnetpp/scheduler/I2L/I2L.cc) with its timer and a clock that goes on.
use pfssim.Base.{ℕ, ◌≡◌, Bool, List, [], ◌∷◌, ◌++◌, Arith, count_by}
use pfssim.Packet.{BPacket}
use pfssim.Scheduler.IQueue.{IQueue, Contract, Call, pushed, Outcome, run}
use pfssim.Scheduler.I2l.{queued, Avatar, notify, i2l_queue}
use pfssim.Scheduler.I2l.Release.{State, IsReady, Moves}

-- A call of the queue, or the timer.
pub data Action (A : Type 0) : Type 0 where
  calls : Call A → Action A
  notifies : Action A

abbrev pub pushed_at : {A B : Type 0} → List (B × Action A) → List A
pushed_at [] = []
pushed_at ((t, calls k) ∷ es) = pushed (k ∷ []) ++ pushed_at es
pushed_at ((t, notifies) ∷ es) = pushed_at es

module _ (F : Arith) {A : Type 0} (b : BPacket A) (q : IQueue A) (v : Avatar F b q)
    (minimal : F.Double) (c : Contract q) (n : ℕ) where
  abbrev S : Type 0
  S = State F b q v minimal c n

  abbrev Ready : S → Type 0
  Ready = IsReady F b q v minimal c n

  -- The end of a window of AVATAR, which is a parameter here, sets what later dispatches depend on: it loses no
  -- packet and dispatches none.
  pub record KeepsPackets : Type 0 where
    pub window-Valid : (a : q.State) → c.Valid a → c.Valid (v.window_end a)
    pub window_keeps :
        (p : A → Bool) (a : q.State)
        → c.Valid a
        → (count_by p (q.waiting (v.window_end a)) ≡ count_by p (q.waiting a))
          × (count_by p (q.outstanding (v.window_end a)) ≡ count_by p (q.outstanding a))

  -- Each action comes at a time of the clock.
  unfoldable pub run_at : S → List (F.Double × Action A) → Outcome A S
  run_at x [] = record { dispatched = []; popped = []; state = x }
  run_at x ((t, calls k) ∷ es) =
      let o = run (i2l_queue F b q v minimal) (record x { now = t }) (k ∷ []) in
      let rest = run_at o.state es in
      record {
        dispatched = o.dispatched ++ rest.dispatched;
        popped = o.popped ++ rest.popped;
        state = rest.state;
      }
  run_at x ((t, notifies) ∷ es) = run_at (notify F b q v minimal (record x { now = t })).1 es

  abbrev Goes : S → List A → List A → S → Type 0
  Goes = Moves F b q v minimal c n

  -- What waits at the two levels.
  abbrev pub waiting : S → List A
  waiting x = queued x.sarc.req_q x.sarc.app_num ++ q.waiting x.avatar
