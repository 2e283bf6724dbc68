-- ===== src/Dsd/Handlers/Laws.antt =====
-- The loop of `dispatchVFSReqs` in omnetpp/dserver/dsd/DSD_M.cc.
use pfssim.Base.{
  ℕ, zero, suc, ◌<◌, ◌≡◌, refl, ap, inl, inr, none, some, List, [], ◌∷◌, length, map, arith,
}
use pfssim.Packet.{GPacket, lfile_req}
use pfssim.Scheduler.Fifo.{Fifo}
use pfssim.Scheduler.Fifo.Drain.{
  moved, dispatch_next-cases, Drained, nothing-Drained, moved-Drained,
}
use pfssim.Dsd.{next_packet}
use pfssim.Dsd.Handlers.{
  Daemon, Effect, to_vfs, Result, prefix_with, dispatched, dispatch_all, dispatch_vfs_reqs,
}

-- What goes to the file system for a sub-request.
abbrev to_file : Daemon → GPacket → Effect
to_file d p = to_vfs (record p { kind = lfile_req; o_direct = d.direct })

-- The daemon with another queue of sub-requests.
abbrev with_queue : Daemon → Fifo GPacket → Daemon
with_queue d q = record d { dsd = record d.dsd { subreq_q = q } }

-- Sub-requests that waited go out, and nothing else changes.
pub record Dispatches (d : Daemon) (es : List Effect) (d' : Daemon) : Type 0 where
  pub goes : List GPacket
  pub left : Fifo GPacket
  pub sent : es ≡ map (to_file d) goes
  pub state : d' ≡ with_queue d left
  pub drained : Drained d.dsd.subreq_q goes left

abbrev pub Ends : Daemon → Result → Type 0
Ends d none = ⊥
Ends d (some (es, d')) = Dispatches d es d'

prefix_with-Ends :
    (d : Daemon) (p : GPacket) (w : List GPacket) (r : Result)
    → d.dsd.subreq_q.wait_q ≡ p ∷ w
    → Ends (with_queue d (moved d.dsd.subreq_q p w)) r
    → Ends d (prefix_with (to_file d p ∷ []) r)
prefix_with-Ends d p w none e h = h
prefix_with-Ends d p w (some (es, d')) e h = record {
  goes = p ∷ h.goes;
  left = h.left;
  sent = ap (λ fs. to_file d p ∷ fs) h.sent;
  state = h.state;
  drained = moved-Drained d.dsd.subreq_q h.left p w h.goes e h.drained;
}

dispatch_all-Ends :
    (fuel : ℕ) (d : Daemon) → length d.dsd.subreq_q.wait_q < fuel → Ends d (dispatch_all fuel d)
unfolding dispatch_all dispatched next_packet
dispatch_all-Ends zero d l = absurd (omega arith)
dispatch_all-Ends (suc fuel) d l = elim (dispatch_next-cases d.dsd.subreq_q) [
  | inl n ↦ rw n record {
    goes = [];
    left = d.dsd.subreq_q;
    sent = refl;
    state = refl;
    drained = nothing-Drained d.dsd.subreq_q n;
  }
  | inr (p, w, e, n) ↦
      rw n (prefix_with-Ends d p w _ e (dispatch_all-Ends fuel _ (omega (arith, ap length e))))
]

-- `dispatchVFSReqs` ends: the sub-requests that go to the file system are the first ones that waited,
-- in their order, they are outstanding afterwards, the queue gives out no other, and nothing else
-- changes.
pub dispatch_vfs_reqs-Ends : (d : Daemon) → Ends d (dispatch_vfs_reqs d)
unfolding dispatch_vfs_reqs
dispatch_vfs_reqs-Ends d = dispatch_all-Ends (suc (length d.dsd.subreq_q.wait_q)) d (omega arith)
