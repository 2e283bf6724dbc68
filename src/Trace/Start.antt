-- ===== src/Trace/Start.antt =====
-- The trace that `setLayout` starts (omnetpp/trace/WindowBasedTrace.cc).
use pfssim.Base.{
  ℕ, zero, suc, ◌/◌, ◌%◌, ◌<◌, ◌≡◌, refl, ◌∙◌, inl, inr, Option, none, some, Bool-cases, leb, arith,
}
use pfssim.Layout.{Layout, sum_upto}
use pfssim.Trace.{Trace, fill_cells}
use pfssim.Trace.Offset.{place_server, place_upto, begin, set_from, set_layout}
use pfssim.Trace.Distribute.{Striped, sum_upto-zero}
use pfssim.Trace.Place.{Placed, settle, place_upto-Placed, known_window_size}
use pfssim.Trace.Window.{pending, pending-fill_cells}
use pfssim.Trace.Run.{Carries, open_new_window-Balanced}

-- The loop over the servers keeps the sizes of the request.
abbrev SameSize : Trace → Trace → Type 0
SameSize t' t = t'.unprocessed_size ≡ t.unprocessed_size

place_server-SameSize :
    (l : Layout) (jumps i : ℕ) (o : Option ℕ) (t : Trace)
    → SameSize (place_server l jumps i o t).1 t
unfolding place_server
place_server-SameSize l jumps i none t = refl
place_server-SameSize l jumps i (some r) t = elim (Bool-cases (leb r (l.server_stripe_sizes i))) [
  | inl fits ↦ rw fits refl
  | inr passes ↦ rw passes refl
]

place_upto-SameSize :
    (l : Layout) (jumps n : ℕ) (o : Option ℕ) (t : Trace) → SameSize (place_upto l jumps n o t).1 t
unfolding place_upto
place_upto-SameSize l jumps zero o t = refl
place_upto-SameSize l jumps (suc n) o t =
    place_server-SameSize l jumps n _ (place_upto l jumps n o t).1
    ∙ place_upto-SameSize l jumps n o t

Placed-Striped :
    (l : Layout) (jumps remainder : ℕ) (t : Trace)
    → ((i : ℕ) → i < l.server_num → 0 < l.server_stripe_sizes i)
    → Placed l jumps remainder l.server_num (none, t)
    → Striped t l
Placed-Striped l jumps remainder t stripes placed = record {
  start_server = placed.0;
  start_position = placed.1;
  stripes = stripes;
}

begin-Carries :
    (l : Layout) (total : ℕ) (t : Trace)
    → Striped t l
    → t.unprocessed_size ≡ total
    → Carries total 0 (begin l t)
unfolding begin
begin-Carries l total t striped e = (
  l,
  open_new_window-Balanced l total 0
      (record t {
        layout = some l;
        data_size_in_window = fill_cells l.server_num (λ i. 0) t.data_size_in_window;
      })
      emptied (refl, striped, omega (arith, emptied, e)),
)
  where
    emptied : pending l.server_num (fill_cells l.server_num (λ i. 0) t.data_size_in_window) ≡ 0
    emptied =
        pending-fill_cells l.server_num (λ i. 0) t.data_size_in_window ∙ sum_upto-zero l.server_num

-- The sum of stripes that have a size, for servers that are there.
some_stripe : (n : ℕ) (a : ℕ → ℕ) → 0 < n → ((i : ℕ) → i < n → 0 < a i) → 0 < sum_upto n a
unfolding sum_upto
some_stripe zero a h stripes = h
some_stripe (suc n) a h stripes = omega (arith, stripes n (omega arith))

set_from-Carries :
    (l : Layout) (t : Trace) (total w : ℕ)
    → w ≡ sum_upto l.server_num l.server_stripe_sizes
    → 0 < w
    → ((i : ℕ) → i < l.server_num → 0 < l.server_stripe_sizes i)
    → t.unprocessed_size ≡ total
    → Carries total 0 (set_from (w, l) t)
unfolding set_from
set_from-Carries l t total w e pos stripes full =
    begin-Carries l total placed.1
      (Placed-Striped l _ _ placed.1 stripes (
        settle l _ _ l.server_num placed.0 placed.1 (omega arith)
          (place_upto-Placed l _ _ l.server_num t)))
      (place_upto-SameSize l _ l.server_num _ t ∙ full)
  where
    placed : Option ℕ × Trace
    placed = place_upto l (t.offset / w) l.server_num (some (t.offset % w)) t

-- A trace that gets a layout with servers, whose stripes all have a size and make up the window size,
-- starts with the whole request to hand out.
pub set_layout-Carries :
    (l : Layout) (t : Trace)
    → l.window_size ≡ some (sum_upto l.server_num l.server_stripe_sizes)
    → 0 < l.server_num
    → ((i : ℕ) → i < l.server_num → 0 < l.server_stripe_sizes i)
    → Carries t.unprocessed_size 0 (set_layout l t)
unfolding set_layout
set_layout-Carries l t e h stripes =
    rw (known_window_size l _ e)
      (set_from-Carries l t _ _ refl (some_stripe l.server_num _ h stripes) stripes refl)
