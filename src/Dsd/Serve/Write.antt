-- ===== src/Dsd/Serve/Write.antt =====
-- The answer to a packet of a write (omnetpp/dserver/dsd/PVFS2DSD.cc).
use pfssim.Base.{
  ℕ, ◌≡◌, refl, inl, inr, ℤ, false, none, some, List, [], ◌∷◌, if◌then◌else◌, find_by, remove_by,
  count_by, find_by-snoc, remove_by-snoc, Bool-cases, ==_refl,
}
use pfssim.Packet.{GPacket, g_packet, pfs_w_fin}
use pfssim.Scheduler.Fifo.{push_wait_q, dispatch_next, pop_os_q, has_id, is_full}
use pfssim.Dsd.{
  Info, has_key, is_last_data, new_req, next_packet, finished_req, close, write_done, with_info,
  popped,
}
use pfssim.Dsd.Serve.{with_answer, and_then, one_packet, serve, idle}

module _ (limit : ℕ) (m : List (ℕ × Info)) (deg : ℤ) (os : List GPacket) where
  -- A packet of a write at a daemon that is idle, with room in its queue and with no other request
  -- of the ID, is answered if and only if it is the last packet of its write, by the end of the
  -- write; and the daemon is then as it was.
  pub new_req_write-Served :
      (p : GPacket)
      → p.read ≡ false
      → count_by (has_id g_packet p.id) os ≡ 0
      → find_by (has_key p.id) m ≡ none
      → is_full (record { degree = deg; wait_q = []; os_q = os }) ≡ false
      → serve 2 (new_req p (idle limit m deg os))
        ≡ some (
          (if is_last_data p.kind then record p { kind = pfs_w_fin } ∷ [] else []),
          (idle limit m deg os),
        )
  unfolding serve one_packet and_then with_answer new_req push_wait_q next_packet dispatch_next
      finished_req popped with_info write_done close find_by remove_by pop_os_q
  new_req_write-Served p w fresh f room =
      rw (w, f, room, ==_refl p.id)
        (rw (==_refl p.id) (
          rw
            (
              find_by-snoc (has_id g_packet p.id) os (record p { read = false }) fresh
                  (==_refl p.id),
              remove_by-snoc (has_id g_packet p.id) os (record p { read = false }) fresh
                  (==_refl p.id),
            )
            (rw (==_refl p.id)
              (elim (Bool-cases (is_last_data p.kind)) [ inl e ↦ rw e refl | inr e ↦ rw e refl ]))))
