-- ===== src/Dsd/Serve.antt =====
-- A read at the daemon of a data server (omnetpp/dserver/dsd/PVFS2DSD.cc), from the request to the
-- last answer, with a file system below that answers each sub-request in turn.
pub mod Read
pub mod Write
use pfssim.Base.{
  ℕ, zero, suc, ◌+◌, ◌-◌, ◌*◌, ◌/◌, ◌%◌, ◌≤◌, ◌<◌, ◌≡◌, ◌≢◌, refl, subst, inl, inr, ◌⊎◌, ℤ, pos,
  Bool, true, false, Option, none, some, List, [], ◌∷◌, ◌++◌, ◌==◌, leb, if◌then◌else◌, find_by,
  remove_by, count_by, find_by-snoc, remove_by-snoc, Bool-cases, ==_refl, arith, to_list,
}
use pfssim.Packet.{Kind, GPacket, g_packet, lfile_resp, pfs_w_fin, pfs_r_data, pfs_r_data_last}
use pfssim.Scheduler.Fifo.{Fifo, push_wait_q, dispatch_next, pop_os_q, query_job, has_id, is_full}
use pfssim.Client.Ids.{rid_offset}
use pfssim.Dsd.{
  Info, Dsd, Finished, has_key, read_info, first_subreq, is_last_data, new_subreq, last_subreq,
  new_req, next_packet, finished_req, next_subreq, next_id, orig_id, close, go_on, write_done,
  read_done, with_info, popped, last_of,
}

abbrev pub answer_to : GPacket → GPacket
answer_to p = record p { kind = lfile_resp }

pub with_answer : Option GPacket → Option (List GPacket × Dsd) → Option (List GPacket × Dsd)
with_answer o none = none
with_answer o (some (ps, d)) = some (to_list o ++ ps, d)

pub and_then : Finished → (Dsd → Option (List GPacket × Dsd)) → Option (List GPacket × Dsd)
unfolding with_answer
and_then none k = none
and_then (some (o, d)) k = with_answer o (k d)

pub one_packet :
    Option GPacket × Dsd → (Dsd → Option (List GPacket × Dsd)) → Option (List GPacket × Dsd)
unfolding and_then
one_packet (none, d) k = some ([], d)
one_packet (some p, d) k = and_then (finished_req (answer_to p) d) k

-- The daemon dispatches sub-requests and is answered, until none is left; on fuel.
unfoldable pub serve : ℕ → Dsd → Option (List GPacket × Dsd)
unfolding one_packet
serve zero d = none
serve (suc fuel) d = one_packet (next_packet d) (serve fuel)

-- The packets that answer a read of the bytes from `loff` to `ub`.
unfoldable pub Answers : ℕ → ℕ → ℕ → ℕ → List GPacket → Type 0
Answers limit ub id loff [] = ⊥
Answers limit ub id loff (p ∷ []) =
    (p.id ≡ id)
    × (p.low_offset ≡ loff)
    × (loff + p.size ≡ ub)
    × (p.size ≤ limit)
    × (p.kind ≡ pfs_r_data_last)
    × (p.read ≡ true)
Answers limit ub id loff (p ∷ q ∷ ps) =
    ((p.id / rid_offset * rid_offset ≡ id) × (p.id ≢ id))
    × (p.low_offset ≡ loff)
    × (p.size ≡ limit)
    × (p.kind ≡ pfs_r_data)
    × (loff + limit < ub)
    × (p.read ≡ true)
    × Answers limit ub id (loff + limit) (q ∷ ps)

module _ (limit : ℕ) (m : List (ℕ × Info)) (deg : ℤ) (os : List GPacket) where
  -- A daemon that no sub-request keeps busy.
  abbrev pub idle : Dsd
  idle = record {
    subreq_size = limit;
    info_map = m;
    req_q = record { degree = deg; wait_q = []; os_q = os };
    subreq_q = record { degree = pos 1; wait_q = []; os_q = [] };
  }

  -- It serves the read `p`, and its next sub-request waits.
  abbrev pub serving : GPacket → List GPacket → List GPacket → Dsd
  serving p wait out = record {
    subreq_size = limit;
    info_map = (p.id, read_info limit p) ∷ m;
    req_q = record { degree = deg; wait_q = []; os_q = os ++ p ∷ [] };
    subreq_q = record { degree = pos 1; wait_q = wait; os_q = out };
  }

  pub next_packet_lem :
      (p sub : GPacket)
      → next_packet (serving p (sub ∷ []) []) ≡ (some sub, serving p [] (sub ∷ []))
  unfolding next_packet dispatch_next
  next_packet_lem p sub = refl

  abbrev pub next : GPacket → GPacket → ℕ → GPacket
  next p fin loff =
      if leb (p.low_offset + p.size) (loff + limit)
      then last_subreq p loff (p.low_offset + p.size - loff)
      else new_subreq limit (next_id fin) loff (read_info limit p)

  pub finished_req_more :
      (p sub : GPacket)
      → sub.read ≡ true
      → sub.id / rid_offset * rid_offset ≡ p.id
      → sub.low_offset + sub.size < p.low_offset + p.size
      → count_by (has_id g_packet p.id) os ≡ 0
      → finished_req (answer_to sub) (serving p [] (sub ∷ []))
        ≡ some (
          some (record sub { kind = pfs_r_data }),
          serving p (next p sub (sub.low_offset + sub.size) ∷ []) [],
        )
  unfolding finished_req popped with_info read_done go_on next_subreq last_of find_by remove_by
      pop_os_q push_wait_q query_job
  finished_req_more p sub r o l fresh =
      rw (==_refl sub.id, r, o, ==_refl p.id)
        (rw (beyond)
          (elim (Bool-cases (leb (p.low_offset + p.size) (sub.low_offset + sub.size + limit))) [
            | inl e ↦ rw (e, o, find_by-snoc (has_id g_packet p.id) os p fresh (==_refl p.id)) refl
            | inr e ↦ rw (e, o) refl
          ]))
    where
      beyond : leb (p.low_offset + p.size) (sub.low_offset + sub.size) ≡ false
      beyond = ground arith

  pub finished_req_last :
      (p sub : GPacket)
      → sub.read ≡ true
      → sub.id / rid_offset * rid_offset ≡ p.id
      → p.low_offset + p.size ≤ sub.low_offset + sub.size
      → count_by (has_id g_packet p.id) os ≡ 0
      → finished_req (answer_to sub) (serving p [] (sub ∷ []))
        ≡ some (some (record sub { kind = pfs_r_data_last }), idle)
  unfolding finished_req popped with_info read_done close find_by remove_by pop_os_q
  finished_req_last p sub r o l fresh =
      rw (==_refl sub.id, r, o, ==_refl p.id)
        (rw (within) (
          rw
            (
              o,
              find_by-snoc (has_id g_packet p.id) os p fresh (==_refl p.id),
              remove_by-snoc (has_id g_packet p.id) os p fresh (==_refl p.id),
            )
            (rw (==_refl p.id) refl)))
    where
      within : leb (p.low_offset + p.size) (sub.low_offset + sub.size) ≡ true
      within = ground arith

  pub next_packet-idle : next_packet idle ≡ (none, idle)
  unfolding next_packet dispatch_next
  next_packet-idle = refl
