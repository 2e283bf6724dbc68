-- ===== src/Proxy/Tests.antt =====
-- The proxy over a FIFO queue of degree 2, with a queue that sends no messages.
use pfssim.Base.{◌≡◌, ℕ, refl, pos, [], ◌∷◌, Option, none, some, find_by, count_by, arith, false}
use pfssim.Packet.{Kind, GPacket, g_packet, pfs_w_req, self_pfs_w_req, pfs_w_fin}
use pfssim.Scheduler.Fifo.{fifo_queue, pop_os_q}
use pfssim.Scheduler.Fifo.Laws.{fifo_contract, IsBounded-Valid}
use pfssim.Proxy.{Messenger, Proxy, packet, other, handle_message}
use pfssim.Proxy.Handled.{IsCounted, Handles}
use pfssim.Proxy.Schedule.{IsQuiet}
use pfssim.Proxy.Messages.{FitsAs, reply, handle_message-Handles}

abbrev silent : Messenger (fifo_queue g_packet)
silent = record {
  Message = Unit;
  propagate_s_packet = λ s. (none, s);
  receive_s_packet = λ m s. s;
  notify = λ s. (0, s);
  left = λ s. 0;
}

none-some : (m : Unit {0}) → ◌≡◌ {A = Option (Unit {0})} none (some m) → ⊥
none-some m e = grind arith

silent-IsQuiet : IsQuiet silent (fifo_contract g_packet)
silent-IsQuiet = record {
  falls = λ s m e. absurd (none-some m e);
  propagate-Valid = λ s v. v;
  keeps = λ p s. (refl, refl);
  receive-Valid = λ m s v. v;
  receive_keeps = λ p m s v. (refl, refl);
  notify-Valid = λ s v. v;
  notify_keeps = λ p s v. (refl, refl);
}

abbrev job_of : Kind → ℕ → GPacket
job_of k i = record {
  kind = k;
  id = i;
  sub_id = 0;
  app = 0;
  size = 8;
  client_id = 0;
  file_id = 0;
  high_offset = 0;
  low_offset = 0;
  read = false;
  ds_id = 0;
  aggregate_size = 8;
  total_subreqs = 1;
  sub_req_num = 1;
  o_direct = false;
}

abbrev write : GPacket
write = job_of pfs_w_req 7000

abbrev finished : GPacket
finished = job_of pfs_w_fin 1012

-- One write is outstanding and two wait; the final reply of the first comes.
abbrev busy : Proxy (fifo_queue g_packet) silent
busy = record {
  algorithm = other;
  newjob_proc_time = 0;
  finjob_proc_time = 0;
  queue = record {
    degree = pos 1;
    wait_q = job_of self_pfs_w_req 2000 ∷ job_of self_pfs_w_req 3000 ∷ [];
    os_q = job_of pfs_w_req 1000 ∷ [];
  };
  os_req_num = 1;
}

handle_message-Handles_example :
    Handles
      (fifo_queue g_packet)
      silent
      (fifo_contract g_packet)
      0
      busy
      (finished ∷ [])
      (handle_message (fifo_queue g_packet) silent (packet finished) busy)
handle_message-Handles_example =
    handle_message-Handles (fifo_queue g_packet) silent (fifo_contract g_packet) silent-IsQuiet
      (packet finished) busy fits counted
  where
    fits :
        FitsAs
          (fifo_queue g_packet)
          silent
          (fifo_contract g_packet)
          silent-IsQuiet
          reply
          finished
          busy
    fits = unfold FitsAs pop_os_q find_by in (job_of pfs_w_req 1000, refl)

    counted : IsCounted (fifo_queue g_packet) silent (fifo_contract g_packet) 0 busy
    counted =
        unfold count_by in
        record {
          valid = IsBounded-Valid g_packet busy.queue (omega arith);
          counted = refl;
          ready = refl;
        }
