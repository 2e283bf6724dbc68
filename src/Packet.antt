-- ===== src/Packet.antt =====
-- omnetpp/packet/Packets.msg: the packets that the modules exchange, with the fields that the
-- modelled code reads or writes. The message kinds are those of General.h.
use pfssim.Base.{ℕ, Bool}

-- The getters of `bPacket`, which every packet class has.
pub record BPacket (A : Type 0) : Type 0 where
  pub id : A → ℕ
  pub sub_id : A → ℕ
  pub app : A → ℕ
  pub size : A → ℕ

pub data Kind : Type 0 where
  self_event layout_req layout_resp trace_resp : Kind
  pfs_w_req pfs_r_req pfs_w_resp pfs_w_data pfs_w_data_last pfs_w_fin : Kind
  pfs_r_data pfs_r_data_last : Kind
  self_pfs_w_req self_pfs_r_req self_pfs_w_resp self_pfs_w_data self_pfs_w_data_last : Kind
  self_pfs_w_fin self_pfs_r_data self_pfs_r_data_last : Kind
  lfile_req lfile_resp page_req page_resp blk_req blk_resp prop_sch alg_timer trace_req : Kind

-- `gPacket`, a request for data.
pub record GPacket : Type 0 where
  pub kind : Kind
  pub id : ℕ
  pub sub_id : ℕ
  pub app : ℕ
  pub size : ℕ
  pub client_id : ℕ
  pub file_id : ℕ
  pub high_offset : ℕ
  pub low_offset : ℕ
  pub read : Bool
  pub ds_id : ℕ
  pub aggregate_size : ℕ
  pub total_subreqs : ℕ
  pub sub_req_num : ℕ
  pub o_direct : Bool

abbrev pub g_packet : BPacket GPacket
g_packet = record { id = λ p. p.id; sub_id = λ p. p.sub_id; app = λ p. p.app; size = λ p. p.size }
