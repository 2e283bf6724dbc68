-- ===== src/Scheduler/Samples.antt =====
-- Packets for the tests of the queues, an ID, an application and a size each, and numbers for the tests.
use pfssim.Base.{ℕ, IsTagArith, ltb, ◌==◌, ◌+◌, ◌-◌, ◌*◌, ◌/◌, Arith, IsOrder, arith}
use pfssim.Packet.{BPacket}

pub record Job : Type 0 where
  pub id : ℕ
  pub app : ℕ
  pub size : ℕ

abbrev pub job_packet : BPacket Job
job_packet = record { id = λ j. j.id; sub_id = λ j. 0; app = λ j. j.app; size = λ j. j.size }

abbrev pub job : ℕ → ℕ → ℕ → Job
job i a s = record { id = i; app = a; size = s }

-- Whole numbers meet what is assumed of doubles.
abbrev pub whole : Arith
whole = record {
  Double = ℕ;
  zero = 0;
  of_nat = λ n. n;
  add = λ a b. a + b;
  sub = λ a b. a - b;
  mul = λ a b. a * b;
  div = λ a b. a / b;
  lt = ltb;
  eq = ◌==◌;
}

pub whole_order : IsOrder whole
whole_order = record {
  lt_irrefl = λ a. ground arith;
  lt_asymm = λ a b h. ground arith;
  nlt_trans = λ a b c h k. ground arith;
}

pub whole_tags : IsTagArith whole
whole_tags = record {
  order = whole_order;
  of_nat_nonneg = λ n. ground arith;
  share_grows = λ s w d h k. ground arith;
  sub_self = λ a. omega arith;
  add_zero = λ a. omega arith;
}

-- Quarters, where a double counts by 1/4, and their conversion to an int.
abbrev pub quarters : Arith
quarters = record {
  Double = ℕ;
  zero = 0;
  of_nat = λ n. n * 4;
  add = λ a b. a + b;
  sub = λ a b. a - b;
  mul = λ a b. a * b / 4;
  div = λ a b. a * 4 / b;
  lt = ltb;
  eq = ◌==◌;
}

abbrev pub trunc : ℕ → ℕ
trunc n = n / 4

pub quarters_order : IsOrder quarters
quarters_order = record {
  lt_irrefl = whole_order.lt_irrefl;
  lt_asymm = whole_order.lt_asymm;
  nlt_trans = whole_order.nlt_trans;
}
