-- ===== src/Dsd/Handlers.antt =====
-- The handlers of omnetpp/dserver/dsd/DSD_M.cc. Delays are counted in whole ticks; the test of
-- `parallel_job_proc_time` against the clock is a parameter. The size below which a write is small is
-- rounded up to whole bytes.
pub mod Laws
use pfssim.Base.{
  ℕ, zero, suc, ◌+◌, Bool, true, false, Option, none, some, List, [], ◌∷◌, ◌++◌, ◌==◌, ltb,
  if◌then◌else◌, length, map, ◌&&◌,
}
use pfssim.Packet.{
  Kind, GPacket, lfile_req, lfile_resp, pfs_w_req, pfs_r_req, pfs_w_resp, pfs_w_data,
  pfs_w_data_last, pfs_w_fin, pfs_r_data, pfs_r_data_last, self_pfs_w_req, self_pfs_r_req,
  self_pfs_w_data, self_pfs_w_data_last,
}
use pfssim.Dsd.{Dsd, Finished, new_req, next_packet, finished_req}
use pfssim.Dsd.Reply.{IdMap, read_data_resp}

pub record Daemon : Type 0 where
  pub dsd : Dsd
  pub packet_size_limit : ℕ
  pub write_data_proc_time : ℕ
  pub write_metadata_proc_time : ℕ
  pub read_metadata_proc_time : ℕ
  pub small_io_size_threshold : ℕ
  pub direct : Bool
  pub read_pkt_id_map : IdMap

-- A packet to the file system or to the network, or to the daemon itself: after a delay, or when
-- `parallel_job_proc_time` has passed since its dispatch.
pub data Effect : Type 0 where
  to_vfs : GPacket → Effect
  to_eth : GPacket → Effect
  waits : ℕ → GPacket → Effect
  when_processed : GPacket → Effect

-- What a handler does, and the daemon after it; `none` means that an error ended the program, or
-- that a loop ran out of fuel.
abbrev pub Result : Type 0
Result = Option (List Effect × Daemon)

abbrev pub prefix_with : List Effect → Result → Result
prefix_with es none = none
prefix_with es (some (fs, d)) = some (es ++ fs, d)

abbrev pub has_kind_w_req : Kind → Bool
has_kind_w_req pfs_w_req = true
has_kind_w_req _ = false

abbrev pub has_kind_r_req : Kind → Bool
has_kind_r_req pfs_r_req = true
has_kind_r_req _ = false

dispatched : Daemon → Option GPacket × Dsd → (Daemon → Result) → Result
dispatched d (none, s) rest = some ([], record d { dsd = s })
dispatched d (some p, s) rest =
    prefix_with (to_vfs (record p { kind = lfile_req; o_direct = d.direct }) ∷ [])
      (rest (record d { dsd = s }))

-- The loop of `dispatchVFSReqs`, on fuel.
unfoldable pub dispatch_all : ℕ → Daemon → Result
unfolding dispatched
dispatch_all zero d = none
dispatch_all (suc fuel) d = dispatched d (next_packet d.dsd) (dispatch_all fuel)

-- The fuel is shown to be enough.
unfoldable pub dispatch_vfs_reqs : Daemon → Result
dispatch_vfs_reqs d = dispatch_all (suc (length d.dsd.subreq_q.wait_q)) d

unfoldable pub enqueue_dispatch_vfs_reqs : GPacket → Daemon → Result
enqueue_dispatch_vfs_reqs p d = dispatch_vfs_reqs (record d { dsd = new_req p d.dsd })

abbrev pub send_write_resp : GPacket → Daemon → Result
send_write_resp p d = some (to_eth (record p { kind = pfs_w_resp }) ∷ [], d)

-- A packet waits, or a handler runs at once.
abbrev pub delay_or : ℕ → GPacket → (GPacket → Daemon → Result) → Daemon → Result
delay_or t p f d = if t == 0 then f p d else some (waits t p ∷ [], d)

unfoldable pub handle_read_write_req : GPacket → Daemon → Result
handle_read_write_req p d =
    if ltb p.size d.small_io_size_threshold && has_kind_w_req p.kind
    then delay_or (d.write_data_proc_time + d.write_metadata_proc_time)
        (record p { kind = self_pfs_w_req }) enqueue_dispatch_vfs_reqs d
    else if has_kind_r_req p.kind
    then delay_or d.read_metadata_proc_time (record p { kind = self_pfs_r_req })
        enqueue_dispatch_vfs_reqs d
    else delay_or d.write_metadata_proc_time (record p { kind = self_pfs_w_req }) send_write_resp d

unfoldable pub handle_self_write_req : GPacket → Daemon → Result
handle_self_write_req p d =
    if ltb p.size d.small_io_size_threshold && has_kind_w_req p.kind
    then enqueue_dispatch_vfs_reqs p d
    else send_write_resp p d

abbrev pub data_kind : Kind → Kind
data_kind pfs_w_data = self_pfs_w_data
data_kind pfs_w_data_last = self_pfs_w_data_last
data_kind k = k

unfoldable pub handle_write_data_packet : GPacket → Daemon → Result
handle_write_data_packet p d =
    delay_or d.write_data_proc_time (record p { kind = data_kind p.kind }) enqueue_dispatch_vfs_reqs
      d

module _ (is_early : GPacket → Bool) where
  abbrev pub send_resp : GPacket → Effect
  send_resp p = if is_early p then when_processed p else to_eth p

  replied : Daemon → Option (List GPacket × IdMap) → Result
  replied d none = none
  replied d (some (ps, m)) = some (map send_resp ps, record d { read_pkt_id_map = m })

  unfoldable pub handle_read_data_resp : GPacket → Daemon → Result
  unfolding replied
  handle_read_data_resp p d = replied d (read_data_resp d.packet_size_limit p d.read_pkt_id_map)

  then_dispatch : Result → Result
  then_dispatch none = none
  then_dispatch (some (es, d)) = prefix_with es (dispatch_vfs_reqs d)

  after_finish : Daemon → Finished → Result
  unfolding then_dispatch
  after_finish d none = none
  after_finish d (some (none, s)) = dispatch_vfs_reqs (record d { dsd = s })
  after_finish d (some (some p, s)) = then_dispatch (handle_read_data_resp p (record d { dsd = s }))

  unfoldable pub handle_vfs_resp : GPacket → Daemon → Result
  unfolding after_finish
  handle_vfs_resp p d = after_finish d (finished_req p d.dsd)

  -- `handleMessage` for a packet of its kind; the switch has no default.
  unfoldable pub handle_kind : Kind → GPacket → Daemon → Result
  handle_kind pfs_w_req p d = handle_read_write_req p d
  handle_kind pfs_r_req p d = handle_read_write_req p d
  handle_kind pfs_w_data p d = handle_write_data_packet p d
  handle_kind pfs_w_data_last p d = handle_write_data_packet p d
  handle_kind self_pfs_w_req p d = handle_self_write_req p d
  handle_kind self_pfs_w_data p d = enqueue_dispatch_vfs_reqs p d
  handle_kind self_pfs_w_data_last p d = enqueue_dispatch_vfs_reqs p d
  handle_kind pfs_r_data p d = some (to_eth p ∷ [], d)
  handle_kind pfs_r_data_last p d = some (to_eth p ∷ [], d)
  handle_kind pfs_w_fin p d = some (to_eth p ∷ [], d)
  handle_kind lfile_resp p d = handle_vfs_resp p d
  handle_kind _ p d = some ([], d)

  unfoldable pub handle_message : GPacket → Daemon → Result
  unfolding handle_kind
  handle_message p d = if ltb 1000 p.client_id then none else handle_kind p.kind p d
