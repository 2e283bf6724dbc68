-- ===== src/Scheduler/I2l.antt =====
-- omnetpp/scheduler/I2L: two levels of scheduling. SARC.cc holds back the packets of an application
-- that has no tokens left; I2L.cc hands the others on to AVATAR, which is any queue here. The
-- simulation's clock is a field of the state.
pub mod Counts
pub mod Laws
pub mod Release
pub mod Refines
pub mod Timed
mod Tests
use pfssim.Base.{
  ℕ, zero, suc, ◌+◌, Bool, true, false, not, ◌&&◌, Option, none, some, List, [], ◌∷◌, ◌++◌, ltb,
  if◌then◌else◌, Arith, length, update,
}
use pfssim.Packet.{BPacket}
use pfssim.Scheduler.IQueue.{IQueue}

pub record Sarc (F : Arith) (A : Type 0) : Type 0 where
  pub app_num : ℕ
  pub max_token : ℕ → F.Double
  pub cur_token : ℕ → F.Double
  pub req_q : ℕ → List A
  pub replenish_interval : F.Double
  pub next_periodic_replenishment : F.Double

-- The packets of the lists below `n`.
unfoldable pub queued : {A : Type 0} → (ℕ → List A) → ℕ → List A
queued w zero = []
queued w (suc n) = queued w n ++ w n

module _ (F : Arith) {A : Type 0} (b : BPacket A) where
  abbrev pub has_token : Sarc F A → A → Bool
  has_token s p = F.lt F.zero (s.cur_token (b.app p))

  abbrev pub take_token : Sarc F A → ℕ → ℕ → F.Double
  take_token s app = update s.cur_token app (F.sub (s.cur_token app) (F.of_nat 1))

  -- One round of the loop of `tryToDispatch`, at queue `i`, before the rest of it.
  pub try_queue : Sarc F A → ℕ → List A → Option A × Sarc F A → Option A × Sarc F A
  try_queue s i [] rest = rest
  try_queue s i (p ∷ ps) rest =
      if has_token s p
      then (some p, record s { cur_token = take_token s (b.app p); req_q = update s.req_q i ps })
      else rest

  -- The loop over the queues below the last `n`.
  unfoldable pub try_from : Sarc F A → ℕ → ℕ → Option A × Sarc F A
  unfolding try_queue
  try_from s zero i = (none, s)
  try_from s (suc n) i = try_queue s i (s.req_q i) (try_from s n (i + 1))

  unfoldable pub try_to_dispatch : Sarc F A → Option A × Sarc F A
  try_to_dispatch s = try_from s s.app_num 0

  unfoldable pub replenish_tokens : F.Double → Sarc F A → Sarc F A
  replenish_tokens now s = record s {
    cur_token = λ i. if ltb i s.app_num then s.max_token i else s.cur_token i;
    next_periodic_replenishment = F.add now s.replenish_interval;
  }

  -- Whether the packet is returned, which is `false` for NULL.
  unfoldable pub new_arrival : A → Sarc F A → Bool × Sarc F A
  new_arrival p s =
      if has_token s p
      then (true, record s { cur_token = take_token s (b.app p) })
      else (false, record s { req_q = update s.req_q (b.app p) (s.req_q (b.app p) ++ p ∷ []) })

  -- What I2L uses of AVATAR beside the methods of a queue.
  pub record Avatar (q : IQueue A) : Type 0 where
    pub idle : q.State → Bool
    pub window_end : q.State → q.State
    pub current_window_end : q.State → F.Double

  module _ (q : IQueue A) (v : Avatar q) (minimal : F.Double) where
    pub record I2l : Type 0 where
      pub sarc : Sarc F A
      pub avatar : q.State
      pub idle_status : Bool
      pub now : F.Double

    released : I2l → Option A × Sarc F A → (I2l → I2l) → I2l
    released x (none, s) rest = record x { sarc = s }
    released x (some p, s) rest = rest (record x { sarc = s; avatar = q.push_wait_q p x.avatar })

    -- `while((pkt = sarc->tryToDispatch()) != NULL)`, on fuel.
    unfoldable pub release_all : ℕ → I2l → I2l
    unfolding released
    release_all zero x = x
    release_all (suc fuel) x = released x (try_to_dispatch x.sarc) (release_all fuel)

    -- The fuel is shown to be enough.
    unfoldable pub replenish_and_release : I2l → I2l
    replenish_and_release x =
        release_all (suc (length (queued x.sarc.req_q x.sarc.app_num)))
          (record x { sarc = replenish_tokens x.now x.sarc })

    arrived : A → I2l → Bool × Sarc F A → I2l
    arrived p x (true, s) = record x { sarc = s; avatar = q.push_wait_q p x.avatar }
    arrived p x (false, s) =
        if x.idle_status
        then replenish_and_release (record x { sarc = s })
        else record x { sarc = s }

    unfoldable pub push_wait_q : A → I2l → I2l
    unfolding arrived
    push_wait_q p x = arrived p x (new_arrival p x.sarc)

    -- `idle_status` is set when AVATAR gave nothing at first.
    again : I2l → Option A × I2l
    again x =
        let (o, a) = q.dispatch_next x.avatar in
        (o, record x { avatar = a; idle_status = v.idle a })

    refused : I2l → Option A × I2l
    unfolding again
    refused x =
        if not x.idle_status && v.idle x.avatar
        then again (replenish_and_release x)
        else (none, record x { idle_status = v.idle x.avatar })

    passed_on : I2l → Option A × q.State → Option A × I2l
    unfolding refused
    passed_on x (none, a) = refused (record x { avatar = a })
    passed_on x (some p, a) = (some p, record x { avatar = a })

    unfoldable pub dispatch_next : I2l → Option A × I2l
    unfolding passed_on
    dispatch_next x = passed_on x (q.dispatch_next x.avatar)

    unfoldable pub pop_os_q : ℕ → I2l → Option A × I2l
    pop_os_q id x = let (o, a) = q.pop_os_q id x.avatar in (o, record x { avatar = a })

    next_time : I2l → F.Double × I2l
    next_time x =
        let replenishment = x.sarc.next_periodic_replenishment in
        let window = v.current_window_end x.avatar in
        ((if F.lt window replenishment then window else replenishment), x)

    -- A time is due if it is not after the clock by more than `MINIMAL_DBL`.
    abbrev pub is_due : I2l → F.Double → Bool
    is_due x t = not (F.lt (F.add x.now minimal) t)

    unfoldable pub notify : I2l → F.Double × I2l
    unfolding next_time
    notify x = next_time (
        if is_due x x.sarc.next_periodic_replenishment
        then replenish_and_release x
        else if is_due x (v.current_window_end x.avatar)
        then record x { avatar = v.window_end x.avatar }
        else x)

    abbrev pub i2l_queue : IQueue A
    i2l_queue = record {
      State = I2l;
      push_wait_q = push_wait_q;
      dispatch_next = dispatch_next;
      pop_os_q = pop_os_q;
      waiting = λ x. queued x.sarc.req_q x.sarc.app_num ++ q.waiting x.avatar;
      outstanding = λ x. q.outstanding x.avatar;
    }
