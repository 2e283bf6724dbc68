-- ===== src/Vfs/Tests.antt =====
-- Requests at a page size of 4 bytes, with numbers of quarters in place of `double`.
use pfssim.Base.{ℕ, ◌*◌, ◌/◌, ◌≡◌, ◌∙◌, ap, false, arith}
use native.Mathlib.Nat.{mul_assoc}
use pfssim.Packet.{GPacket, lfile_req}
use pfssim.Vfs.{page_requests}
use pfssim.Scheduler.Samples.{quarters, trunc}
use pfssim.Vfs.Pages.{IsExact, Asks, page_requests-Asks}

scaled : (d k : ℕ) → d * (k * 4) / 4 ≡ d * k
scaled d k = omega (arith, mul_assoc d k 4)

-- A number of quarters is a number of bytes.
quarters-IsExact : IsExact quarters trunc 0 4
quarters-IsExact = record {
  StandsFor = λ d n. d ≡ n;
  divides = λ n. omega arith;
  scales = λ d n k e. scaled d k ∙ ap (λ x. x * k) e;
  adds = λ d e n k h g. omega (arith, h, g);
  truncates = λ d n e. omega (arith, e);
  tells = λ d n e. ground (arith, e);
}

-- A write of 9 bytes from byte 2: it begins and ends in the middle of a page.
abbrev write : GPacket
write = record {
  kind = lfile_req;
  id = 2000;
  sub_id = 0;
  app = 0;
  size = 9;
  client_id = 0;
  file_id = 0;
  high_offset = 0;
  low_offset = 2;
  read = false;
  ds_id = 0;
  aggregate_size = 9;
  total_subreqs = 1;
  sub_req_num = 1;
  o_direct = false;
}

page_requests-Asks_example : Asks 4 write (page_requests quarters trunc 0 4 write)
page_requests-Asks_example =
    page_requests-Asks quarters trunc 0 4 (omega arith) quarters-IsExact write
