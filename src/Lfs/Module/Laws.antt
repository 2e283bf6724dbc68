-- ===== src/Lfs/Module/Laws.antt =====
-- The loop of `dispatchNextDiskReq` (omnetpp/dserver/lfs/LFS_M.cc).
use pfssim.Base.{
  ℕ, zero, suc, ◌+◌, ◌≤◌, ◌<◌, ◌≡◌, refl, inl, inr, true, Bool-cases, Option, Option-cases, none,
  some, List, [], ◌∷◌, leb, count_by, find_by, All, length, reaches, arith,
}
use pfssim.Lfs.Ext3.{
  BlkRequest, Entry, Ext3, is_idle, replace_first, dispatch_next, serve_idle, access,
}
use pfssim.Lfs.Module.{
  Effect, to_disk, Outcome, done, fails, exhausted, after, sent, dispatch_all,
  dispatch_next_disk_req,
}

-- How many page requests no access is under way for.
abbrev pub idle : Ext3 → ℕ
idle q = count_by is_idle q.page_req_q

count-replace_first :
    (e e' : Entry) (xs : List Entry)
    → find_by is_idle xs ≡ some e
    → e'.pending ≡ true
    → count_by is_idle xs ≡ count_by is_idle (replace_first is_idle e' xs) + 1
unfolding count_by find_by replace_first
count-replace_first e e' [] h p = absurd (grind (arith, h))
count-replace_first e e' (x ∷ xs) h p = elim (Bool-cases x.pending) [
  | inl k ↦ ground (arith, count-replace_first e e' xs)
  | inr k ↦ rw (k, p) (omega arith)
]

-- A dispatch that gives out an access takes one of them.
Takes : Ext3 → Option BlkRequest × Ext3 → Type 0
Takes q (none, q') = idle q' ≤ idle q
Takes q (some b, q') = idle q ≡ idle q' + 1

access-Takes :
    (e : Entry) (i : Option ℕ) (q : Ext3)
    → find_by is_idle q.page_req_q ≡ some e
    → Takes q (access e i (record q { outstanding = q.outstanding + 1 }))
unfolding access Takes
access-Takes e none q h =
    omega (arith, count-replace_first e (record e { pending = true }) q.page_req_q h refl)
access-Takes e (some i) q h = count-replace_first e _ q.page_req_q h refl

dispatch_next-Takes : (q : Ext3) → Takes q (dispatch_next q)
unfolding dispatch_next serve_idle Takes
dispatch_next-Takes q = elim (Bool-cases (reaches q.outstanding q.degree)) [
  | inl f ↦ rw f (omega arith)
  | inr f ↦ rw f (elim (Option-cases (find_by is_idle q.page_req_q)) [
    | inl h ↦ rw h (omega arith)
    | inr (e, h) ↦ rw h (access-Takes e _ q h)
  ])
]

-- An access of one block at least.
pub IsAccess : Effect → Type 0
IsAccess (to_disk b) = b.blk_start < b.blk_end
IsAccess e = ⊥

-- Accesses go out, each for a page request of its own, until the queue gives out none or an access of
-- no block ends the program.
pub Ends : Ext3 → Outcome → Type 0
Ends q (done es q') = All IsAccess es × (idle q' + length es ≤ idle q)
Ends q (fails es) = All IsAccess es × (length es < idle q)
Ends q exhausted = ⊥

after-Ends :
    (q q' : Ext3) (b : BlkRequest) (o : Outcome)
    → b.blk_start < b.blk_end
    → idle q ≡ idle q' + 1
    → Ends q' o
    → Ends q (after (to_disk b) o)
unfolding Ends IsAccess
after-Ends q q' b (done es z) l i h = ((l, h.0), omega (arith, h.1, i))
after-Ends q q' b (fails es) l i h = ((l, h.0), omega (arith, h.1, i))
after-Ends q q' b exhausted l i h = h

sent-Ends :
    (q : Ext3) (r : Option BlkRequest × Ext3) (rest : Ext3 → Outcome)
    → Takes q r
    → ((q' : Ext3) → idle q ≡ idle q' + 1 → Ends q' (rest q'))
    → Ends q (sent r rest)
unfolding sent Takes Ends
sent-Ends q (none, q') rest t k = (tt, omega arith)
sent-Ends q (some b, q') rest t k = elim (Bool-cases (leb b.blk_end b.blk_start)) [
  | inl e ↦ rw e (tt, omega arith)
  | inr e ↦ rw e (after-Ends q q' b (rest q') (ground arith) t (k q' t))
]

dispatch_all-Ends : (fuel : ℕ) (q : Ext3) → idle q < fuel → Ends q (dispatch_all fuel q)
unfolding dispatch_all
dispatch_all-Ends zero q l = absurd (omega arith)
dispatch_all-Ends (suc fuel) q l =
    sent-Ends q (dispatch_next q) (dispatch_all fuel) (dispatch_next-Takes q)
      (λ q' i. dispatch_all-Ends fuel q' (omega arith))

-- `dispatchNextDiskReq` ends: the accesses that go to the disk are of one block at least and each
-- for a page request of its own which no access was under way for; only an access of no block ends
-- the program before the queue gives out none.
pub dispatch_next_disk_req-Ends : (q : Ext3) → Ends q (dispatch_next_disk_req q)
unfolding dispatch_next_disk_req
dispatch_next_disk_req-Ends q = dispatch_all-Ends (suc (idle q)) q (omega arith)
