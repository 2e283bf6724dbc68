-- ===== src/Vfs/Requests.antt =====
-- The loop of `dispatchPageReqs` (omnetpp/dserver/vfs/VFS.cc).
use pfssim.Base.{
  ℕ, zero, suc, ◌<◌, ◌≡◌, refl, ap, inl, inr, none, some, List, [], ◌∷◌, length, map, arith, Arith,
}
use pfssim.Lfs.Ext3.{PageRequest}
use pfssim.Scheduler.Fifo.{Fifo}
use pfssim.Scheduler.Fifo.Drain.{
  moved, dispatch_next-cases, Drained, nothing-Drained, moved-Drained,
}
use pfssim.Vfs.{
  Vfs, Effect, page_effect, Result, prefix_with, paged, dispatch_all, dispatch_next_file_req,
  dispatch_page_reqs,
}

abbrev with_queue : Vfs → Fifo PageRequest → Vfs
with_queue v q = record v { page_req_q = q }

-- Requests for pages that waited go out, to the disk cache or past it, and nothing else changes.
pub record Dispatches (v : Vfs) (es : List Effect) (v' : Vfs) : Type 0 where
  pub goes : List PageRequest
  pub left : Fifo PageRequest
  pub sent : es ≡ map page_effect goes
  pub state : v' ≡ with_queue v left
  pub drained : Drained v.page_req_q goes left

abbrev pub Ends : Vfs → Result → Type 0
Ends v none = ⊥
Ends v (some (es, v')) = Dispatches v es v'

prefix_with-Ends :
    (v : Vfs) (p : PageRequest) (w : List PageRequest) (r : Result)
    → v.page_req_q.wait_q ≡ p ∷ w
    → Ends (with_queue v (moved v.page_req_q p w)) r
    → Ends v (prefix_with (page_effect p ∷ []) r)
prefix_with-Ends v p w none e h = h
prefix_with-Ends v p w (some (es, v')) e h = record {
  goes = p ∷ h.goes;
  left = h.left;
  sent = ap (λ fs. page_effect p ∷ fs) h.sent;
  state = h.state;
  drained = moved-Drained v.page_req_q h.left p w h.goes e h.drained;
}

dispatch_all-Ends :
    (fuel : ℕ) (v : Vfs) → length v.page_req_q.wait_q < fuel → Ends v (dispatch_all fuel v)
unfolding dispatch_all paged
dispatch_all-Ends zero v l = absurd (omega arith)
dispatch_all-Ends (suc fuel) v l = elim (dispatch_next-cases v.page_req_q) [
  | inl n ↦ rw n record {
    goes = [];
    left = v.page_req_q;
    sent = refl;
    state = refl;
    drained = nothing-Drained v.page_req_q n;
  }
  | inr (p, w, e, n) ↦
      rw n (prefix_with-Ends v p w _ e (dispatch_all-Ends fuel _ (omega (arith, ap length e))))
]

module _ (F : Arith) (trunc : F.Double → ℕ) (tolerance : F.Double) where
  -- `dispatchPageReqs` ends: after the next file request was dispatched, the requests for pages that
  -- go out are the first ones that waited, in their order; they are outstanding afterwards, the queue
  -- gives out no other, and nothing else changes.
  pub dispatch_page_reqs-Ends :
      (v : Vfs)
      → Ends (dispatch_next_file_req F trunc tolerance v) (dispatch_page_reqs F trunc tolerance v)
  unfolding dispatch_page_reqs
  dispatch_page_reqs-Ends v = dispatch_all-Ends _ _ (omega arith)
