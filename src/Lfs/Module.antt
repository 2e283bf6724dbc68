-- ===== src/Lfs/Module.antt =====
-- omnetpp/dserver/lfs/LFS_M.cc: the handlers around the queue of EXT3.
pub mod Laws
mod Tests
use pfssim.Base.{
  ℕ, zero, suc, ◌+◌, Bool, true, false, Option, none, some, List, [], ◌∷◌, leb, if◌then◌else◌,
  count_by,
}
use pfssim.Lfs.Ext3.{PageRequest, BlkRequest, Ext3, is_idle, new_req, dispatch_next, finished_req}

pub data Effect : Type 0 where
  to_disk : BlkRequest → Effect
  to_disk_cache : PageRequest → Effect
  to_vfs : PageRequest → Effect

-- A handler ends with the state after it, or an error ends the program, after the messages that went
-- out; or a loop runs out of fuel.
pub data Outcome : Type 0 where
  done : List Effect → Ext3 → Outcome
  fails : List Effect → Outcome
  exhausted : Outcome

abbrev pub after : Effect → Outcome → Outcome
after e (done es q) = done (e ∷ es) q
after e (fails es) = fails (e ∷ es)
after e exhausted = exhausted

-- An access of no block is an error.
sent : Option BlkRequest × Ext3 → (Ext3 → Outcome) → Outcome
sent (none, q) rest = done [] q
sent (some b, q) rest = if leb b.blk_end b.blk_start then fails [] else after (to_disk b) (rest q)

-- The loop of `dispatchNextDiskReq`, on fuel.
unfoldable pub dispatch_all : ℕ → Ext3 → Outcome
unfolding sent
dispatch_all zero q = exhausted
dispatch_all (suc fuel) q = sent (dispatch_next q) (dispatch_all fuel)

-- The fuel is shown to be enough.
unfoldable pub dispatch_next_disk_req : Ext3 → Outcome
dispatch_next_disk_req q = dispatch_all (suc (count_by is_idle q.page_req_q)) q

unfoldable pub handle_page_req : PageRequest → Ext3 → Outcome
handle_page_req r q =
    if leb r.page_end r.page_start then fails [] else dispatch_next_disk_req (new_req r q)

answered : Option PageRequest × Ext3 → Outcome
answered (none, q) = dispatch_next_disk_req q
answered (some r, q) =
    after (if r.o_direct then to_vfs r else to_disk_cache r) (dispatch_next_disk_req q)

unfoldable pub handle_blk_resp : BlkRequest → Ext3 → Outcome
unfolding answered
handle_blk_resp b q = answered (finished_req b q)
