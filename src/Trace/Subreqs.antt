-- ===== src/Trace/Subreqs.antt =====
-- The number of subrequests that a window announces (omnetpp/trace/WindowBasedTrace.cc).
use pfssim.Base.{
  ℕ, zero, suc, ◌≡◌, ◌≢◌, refl, inl, inr, Option, none, some, Bool-cases, ◌==◌, ==_iff, arith,
  subst, sym, true,
}
use pfssim.Layout.{Layout}
use pfssim.Trace.{Trace, count_subreqs, fill_window, next_size, open_from, open_new_window}
use pfssim.Trace.Distribute.{Striped, AddsUp, shares-AddsUp}

count_subreqs_all : (n : ℕ) → count_subreqs n ≡ n
unfolding count_subreqs
count_subreqs_all zero = refl
count_subreqs_all (suc n) = omega (arith, count_subreqs_all n)

fill_window-subreqs :
    (t : Trace) (l : Layout) (agg : ℕ) (o : Option (ℕ → ℕ))
    → AddsUp l agg o
    → (fill_window t l agg o).total_subreqs_in_window ≡ l.server_num
unfolding fill_window
fill_window-subreqs t l agg none h = elim h [ ]
fill_window-subreqs t l agg (some sizes) h = count_subreqs_all l.server_num

open_from-subreqs :
    (t : Trace) (l : Layout)
    → Striped t l
    → t.unprocessed_size ≢ 0
    → ((open_from (some l) t).0 ≡ true)
      × ((open_from (some l) t).1.total_subreqs_in_window ≡ l.server_num)
unfolding open_from
open_from-subreqs t l striped more = elim (Bool-cases (t.unprocessed_size == 0)) [
  | inl done ↦ absurd (more ((==_iff t.unprocessed_size 0).0 done))
  | inr left ↦
      rw left
        (refl, fill_window-subreqs t l (next_size t) _ (shares-AddsUp t l striped (next_size t)))
]

-- A trace with a striped layout and bytes left opens a window, which announces as many subrequests as
-- there are servers, also where the window has no byte for some of the servers, so that they
-- get no packet.
pub open_new_window-subreqs :
    (t : Trace) (l : Layout)
    → t.layout ≡ some l
    → Striped t l
    → t.unprocessed_size ≢ 0
    → ((open_new_window t).0 ≡ true)
      × ((open_new_window t).1.total_subreqs_in_window ≡ l.server_num)
unfolding open_new_window
open_new_window-subreqs t l e striped more =
    subst
      (λ o. ((open_from o t).0 ≡ true) × ((open_from o t).1.total_subreqs_in_window ≡ l.server_num))
      (sym e) (open_from-subreqs t l striped more)
