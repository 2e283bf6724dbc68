-- ===== src/Proxy.antt =====
-- omnetpp/proxy/Proxy.cc: the proxy in front of a data server, which sends requests on in the order
-- of a queue. The queue is any implementation of `IQueue`; delays are counted in whole ticks.
pub mod Handled
pub mod Schedule
pub mod Messages
mod Tests
use pfssim.Base.{
  ℕ, zero, suc, ◌+◌, ◌-◌, ◌*◌, ◌/◌, ◌%◌, ltb, Bool, true, false, ◌||◌, Option, none, some, List, [],
  ◌∷◌, ◌++◌, ◌==◌, if◌then◌else◌, length, map,
}
use pfssim.Packet.{
  Kind, GPacket, pfs_w_req, pfs_r_req, pfs_w_resp, pfs_w_data, pfs_w_data_last, pfs_w_fin,
  pfs_r_data, pfs_r_data_last, self_pfs_w_req, self_pfs_r_req, self_pfs_w_resp, self_pfs_w_data,
  self_pfs_w_data_last, self_pfs_w_fin, self_pfs_r_data, self_pfs_r_data_last, prop_sch,
}
use pfssim.Scheduler.IQueue.{IQueue}
use pfssim.Client.Ids.{rid_offset}

-- The methods of `IQueue` for the messages between schedulers and for the timer. `left` bounds the
-- messages that a state has to send.
pub record Messenger {A : Type 0} (q : IQueue A) : Type 1 where
  pub Message : Type 0
  pub propagate_s_packet : q.State → Option Message × q.State
  pub receive_s_packet : Message → q.State → q.State
  pub notify : q.State → ℕ × q.State
  pub left : q.State → ℕ

-- The names of SchedulerFactory.h that the proxy tests for.
pub data Algorithm : Type 0 where
  dsfqa dsfqalb dsfqatb dsfqd dsfqf i2l other : Algorithm

abbrev pub propagates_on_push : Algorithm → Bool
propagates_on_push dsfqa = true
propagates_on_push dsfqalb = true
propagates_on_push _ = false

abbrev pub propagates_on_dispatch : Algorithm → Bool
propagates_on_dispatch dsfqd = true
propagates_on_dispatch _ = false

abbrev pub propagates_on_pop : Algorithm → Bool
propagates_on_pop dsfqf = true
propagates_on_pop _ = false

-- Whether `handleInterSchedulerPacket` takes a message.
abbrev pub is_distributed : Algorithm → Bool
is_distributed i2l = false
is_distributed other = false
is_distributed _ = true

-- A message that is sent on, a message to the other schedulers, a message to itself after a delay,
-- or the timer set again.
pub data Effect (M : Type 0) : Type 0 where
  sends : GPacket → Effect M
  tells : M → Effect M
  schedules : ℕ → GPacket → Effect M
  sets_timer : ℕ → Effect M

-- The kinds of the `SELF` family are for internal use.
abbrev pub inner_kind : Kind → Kind
inner_kind pfs_w_req = self_pfs_w_req
inner_kind pfs_r_req = self_pfs_r_req
inner_kind pfs_w_resp = self_pfs_w_resp
inner_kind pfs_w_data = self_pfs_w_data
inner_kind pfs_w_data_last = self_pfs_w_data_last
inner_kind pfs_w_fin = self_pfs_w_fin
inner_kind pfs_r_data = self_pfs_r_data
inner_kind pfs_r_data_last = self_pfs_r_data_last
inner_kind k = k

abbrev pub outer_kind : Kind → Kind
outer_kind self_pfs_w_req = pfs_w_req
outer_kind self_pfs_r_req = pfs_r_req
outer_kind self_pfs_w_resp = pfs_w_resp
outer_kind self_pfs_w_data = pfs_w_data
outer_kind self_pfs_w_data_last = pfs_w_data_last
outer_kind self_pfs_w_fin = pfs_w_fin
outer_kind self_pfs_r_data = pfs_r_data
outer_kind self_pfs_r_data_last = pfs_r_data_last
outer_kind k = k

-- The cases of the switch of `sendSafe`.
abbrev pub is_inner : Kind → Bool
is_inner self_pfs_w_req = true
is_inner self_pfs_r_req = true
is_inner self_pfs_w_resp = true
is_inner self_pfs_w_data = true
is_inner self_pfs_w_data_last = true
is_inner self_pfs_w_fin = true
is_inner self_pfs_r_data = true
is_inner self_pfs_r_data_last = true
is_inner _ = false

abbrev pub inner : GPacket → GPacket
inner p = record p { kind = inner_kind p.kind }

abbrev pub outer : GPacket → GPacket
outer p = record p { kind = outer_kind p.kind }

-- `recordPacketID`: the ID of the request that a packet belongs to, put into an `int`. A negative one stands for
-- the `long` that it becomes, as its remainder at 2 ^ 64, which is no ID of a request.
abbrev pub record_packet_id : GPacket → ℕ
record_packet_id p =
    let id = p.id / rid_offset * rid_offset % 4294967296 in
    if ltb id 2147483648 then id else id + (18446744073709551616 - 4294967296)

module _ (q : IQueue GPacket) (m : Messenger q) where
  pub record Proxy : Type 0 where
    pub algorithm : Algorithm
    pub newjob_proc_time : ℕ
    pub finjob_proc_time : ℕ
    pub queue : q.State
    pub os_req_num : ℕ

  -- What a handler does, and the proxy after it; `none` means that `PrintError::print` ended the
  -- program, or that a loop ran out of fuel.
  abbrev pub Result : Type 0
  Result = Option (List (Effect m.Message) × Proxy)

  -- One handler's part after another.
  abbrev pub prefix_with : List (Effect m.Message) → Result → Result
  prefix_with es none = none
  prefix_with es (some (fs, x)) = some (es ++ fs, x)

  abbrev pub then_do : Result → (Proxy → Result) → Result
  then_do none f = none
  then_do (some (es, x)) f = prefix_with es (f x)

  propagated :
      Option m.Message
      → q.State
      → Option (List m.Message × q.State)
      → Option (List m.Message × q.State)
  propagated none s rest = some ([], s)
  propagated (some msg) s none = none
  propagated (some msg) s (some (ms, s')) = some (msg ∷ ms, s')

  -- The loop of `propagateSPackets`, on fuel.
  unfoldable pub propagate_all : ℕ → q.State → Option (List m.Message × q.State)
  unfolding propagated
  propagate_all zero s = none
  propagate_all (suc fuel) s =
      let (o, s') = m.propagate_s_packet s in
      let rest = propagate_all fuel s' in propagated o s' rest

  told : Proxy → Option (List m.Message × q.State) → Result
  told x none = none
  told x (some (ms, s)) = some (map tells ms, record x { queue = s })

  -- The fuel is shown to be enough.
  unfoldable pub propagate_s_packets : Proxy → Result
  unfolding told
  propagate_s_packets x = told x (propagate_all (suc (m.left x.queue)) x.queue)

  unfoldable pub propagate_if : Bool → Proxy → Result
  propagate_if true x = propagate_s_packets x
  propagate_if false x = some ([], x)

  unfoldable pub send_safe : GPacket → Proxy → Result
  send_safe p x = if is_inner p.kind then some (sends (outer p) ∷ [], x) else none

  count_one : Proxy → Result
  count_one x = some ([], record x { os_req_num = x.os_req_num + 1 })

  -- `packetcopy` of a job that was dispatched goes out.
  send_copy : GPacket → Proxy → Result
  unfolding count_one
  send_copy p x = then_do (send_safe p x) count_one

  scheduled : Option GPacket → Proxy → (Proxy → Result) → Result
  unfolding send_copy
  scheduled none x rest = some ([], x)
  scheduled (some p) x rest =
      then_do (then_do (propagate_if (propagates_on_dispatch x.algorithm) x) (send_copy p)) rest

  -- The loop of `scheduleJobs`, on fuel.
  unfoldable pub schedule_all : ℕ → Proxy → Result
  unfolding scheduled
  schedule_all zero x = none
  schedule_all (suc fuel) x =
      let (o, s) = q.dispatch_next x.queue in
      scheduled o (record x { queue = s }) (schedule_all fuel)

  -- The fuel is shown to be enough.
  unfoldable pub schedule_jobs : Proxy → Result
  schedule_jobs x = schedule_all (suc (length (q.waiting x.queue))) x

  unfoldable pub handle_job_req2 : GPacket → Proxy → Result
  handle_job_req2 p x =
      then_do
        (propagate_if (propagates_on_push x.algorithm)
          (record x { queue = q.push_wait_q p x.queue }))
        schedule_jobs

  -- A packet after a delay, or at once.
  unfoldable pub delay_or : ℕ → GPacket → (GPacket → Proxy → Result) → Proxy → Result
  delay_or d p f x = if d == 0 then f p x else some (schedules d p ∷ [], x)

  unfoldable pub handle_job_req : GPacket → Proxy → Result
  handle_job_req p x = delay_or x.newjob_proc_time (inner p) handle_job_req2 x

  unfoldable pub handle_read_last_write_fin2 : GPacket → Proxy → Result
  unfolding send_safe
  handle_read_last_write_fin2 p x =
      then_do
        (then_do
          (propagate_if (propagates_on_pop x.algorithm) (record x {
            queue = (q.pop_os_q (record_packet_id p) x.queue).1;
            os_req_num = x.os_req_num - 1;
          }))
          (send_safe p))
        schedule_jobs

  unfoldable pub handle_read_last_write_fin : GPacket → Proxy → Result
  handle_read_last_write_fin p x =
      delay_or x.finjob_proc_time (inner p) handle_read_last_write_fin2 x

  unfoldable pub handle_minor_read_write : GPacket → Proxy → Result
  handle_minor_read_write p x = delay_or x.newjob_proc_time (inner p) send_safe x

  notified : Proxy → ℕ × Proxy
  notified x = let (d, s) = m.notify x.queue in (d, record x { queue = s })

  set_timer : Proxy → Result
  unfolding notified
  set_timer x = let (d, x') = notified x in some (sets_timer d ∷ [], x')

  timer_for : Algorithm → Proxy → Result
  unfolding set_timer
  timer_for dsfqatb x = then_do (propagate_s_packets x) set_timer
  timer_for i2l x = then_do (set_timer x) schedule_jobs
  timer_for _ x = none

  unfoldable pub handle_algorithm_timer : Proxy → Result
  unfolding timer_for
  handle_algorithm_timer x = timer_for x.algorithm x

  unfoldable pub handle_inter_scheduler_packet : m.Message → Proxy → Result
  handle_inter_scheduler_packet msg x =
      if is_distributed x.algorithm
      then some ([], record x { queue = m.receive_s_packet msg x.queue })
      else none

  -- The cases of `handleMessage` for a packet, by its kind; another kind is an error.
  pub handle_kind : Kind → GPacket → Proxy → Result
  handle_kind pfs_r_req p x = handle_job_req p x
  handle_kind pfs_w_req p x = handle_job_req p x
  handle_kind self_pfs_r_req p x = handle_job_req2 p x
  handle_kind self_pfs_w_req p x = handle_job_req2 p x
  handle_kind pfs_w_fin p x = handle_read_last_write_fin p x
  handle_kind pfs_r_data_last p x = handle_read_last_write_fin p x
  handle_kind self_pfs_w_fin p x = handle_read_last_write_fin2 p x
  handle_kind self_pfs_r_data_last p x = handle_read_last_write_fin2 p x
  handle_kind pfs_w_resp p x = handle_minor_read_write p x
  handle_kind pfs_w_data p x = handle_minor_read_write p x
  handle_kind pfs_w_data_last p x = handle_minor_read_write p x
  handle_kind pfs_r_data p x = handle_minor_read_write p x
  handle_kind self_pfs_w_resp p x = send_safe p x
  handle_kind self_pfs_w_data p x = send_safe p x
  handle_kind self_pfs_w_data_last p x = send_safe p x
  handle_kind self_pfs_r_data p x = send_safe p x
  handle_kind _ p x = none

  -- What comes in: a packet, PROP_SCH or ALG_TIMER.
  pub data Incoming : Type 0 where
    packet : GPacket → Incoming
    from_scheduler : m.Message → Incoming
    timer : Incoming

  unfoldable pub handle_message : Incoming → Proxy → Result
  unfolding handle_kind
  handle_message (packet p) x = handle_kind p.kind p x
  handle_message (from_scheduler msg) x = handle_inter_scheduler_packet msg x
  handle_message timer x = handle_algorithm_timer x
