-- ===== src/Scheduler/Ssfq/Tests.antt =====
-- A request of 300000 bytes over a FIFO queue: three sub-requests, which come back out of order.
use pfssim.Base.{refl, pos, true, false, [], ◌∷◌, some, find_by, remove_by, count_by, arith}
use pfssim.Packet.{GPacket, g_packet, self_pfs_r_req}
use pfssim.Scheduler.Fifo.{fifo_queue, pop_os_q}
use pfssim.Scheduler.Ssfq.{Ssfq, push_wait_q, subreq}
use pfssim.Scheduler.Ssfq.Join.{FindsAll, Waits, Joins, pop_all, pop_all-Joins}
use pfssim.Scheduler.Ssfq.Push.{Takes, push_wait_q-Takes}

abbrev request : GPacket
request = record {
  kind = self_pfs_r_req;
  id = 2;
  sub_id = 0;
  app = 0;
  size = 300000;
  client_id = 0;
  file_id = 0;
  high_offset = 0;
  low_offset = 64;
  read = true;
  ds_id = 0;
  aggregate_size = 300000;
  total_subreqs = 1;
  sub_req_num = 1;
  o_direct = false;
}

abbrev empty : Ssfq (fifo_queue g_packet)
empty = record {
  base = record { degree = pos 8; wait_q = []; os_q = [] };
  sub_req_num = [];
  req_list = [];
}

push_wait_q-Takes_example :
    Takes (fifo_queue g_packet) request empty (push_wait_q (fifo_queue g_packet) request empty)
push_wait_q-Takes_example =
    push_wait_q-Takes (fifo_queue g_packet) request empty (omega arith) (unfold count_by in refl)
      (unfold count_by in refl)

abbrev waiting : Ssfq (fifo_queue g_packet)
waiting = record {
  base = record {
    degree = pos 8;
    wait_q = [];
    os_q =
        subreq request 0 131072 64
        ∷ subreq request 1 131072 131136
        ∷ subreq request 2 37856 262208
        ∷ [];
  };
  sub_req_num = (2, some 3) ∷ [];
  req_list = (2, request) ∷ [];
}

pop_all-Joins_example :
    Joins
      (fifo_queue g_packet)
      2
      request
      (pop_all (fifo_queue g_packet) (2002 ∷ 2000 ∷ 2001 ∷ []) waiting)
pop_all-Joins_example =
    pop_all-Joins (fifo_queue g_packet) 2002 2 (2000 ∷ 2001 ∷ []) request waiting
      (refl, (refl, (refl, tt))) found waits
  where
    found : FindsAll (fifo_queue g_packet) (2002 ∷ 2000 ∷ 2001 ∷ []) waiting.base
    found =
        unfold FindsAll pop_os_q find_by remove_by in
        (
          (subreq request 2 37856 262208, refl),
          ((subreq request 0 131072 64, refl), ((subreq request 1 131072 131136, refl), tt)),
        )

    waits : Waits (fifo_queue g_packet) 2 3 request waiting
    waits =
        unfold count_by find_by in
        record { once = omega arith; counts = refl; listed_once = omega arith; listed = refl }
