-- ===== src/Trace/Place.antt =====
-- `setLayout` (omnetpp/trace/WindowBasedTrace.cc): where a trace starts on the data servers.
use pfssim.Base.{
  ℕ, zero, suc, ◌+◌, ◌*◌, ◌/◌, ◌%◌, ◌≤◌, ◌<◌, ◌≡◌, refl, inl, inr, Option, none, some, arith,
  Bool-cases, leb, ◌==◌, ==_refl, update,
}
use pfssim.Layout.{Layout, sum_upto, get_window_size}
use pfssim.Trace.{Trace, fill_cells, open_from, fill_window, open_new_window}
use pfssim.Trace.Offset.{place_server, place_upto, begin, set_from, set_layout}

-- The bytes before a start that is `remainder` bytes into a round of the servers, when `k` servers
-- are passed: the servers before the start have a stripe more than `jumps` stripes, the start has
-- the position more.
abbrev pub Placed : Layout → ℕ → ℕ → ℕ → Option ℕ × Trace → Type 0
Placed l jumps remainder k (some left, t) =
    (left + sum_upto k l.server_stripe_sizes ≡ remainder)
    × ((j : ℕ) → j < k → t.dsoffsets j ≡ jumps * l.server_stripe_sizes j + l.server_stripe_sizes j)
Placed l jumps remainder k (none, t) =
    (t.offset_start_server < k)
    × (t.offset_start_position ≤ l.server_stripe_sizes t.offset_start_server)
    × (sum_upto t.offset_start_server l.server_stripe_sizes + t.offset_start_position ≡ remainder)
    × ((j : ℕ)
        → j < t.offset_start_server
        → t.dsoffsets j ≡ jumps * l.server_stripe_sizes j + l.server_stripe_sizes j)
    × (t.dsoffsets t.offset_start_server
        ≡ jumps * l.server_stripe_sizes t.offset_start_server + t.offset_start_position)
    × ((j : ℕ)
        → t.offset_start_server < j
        → j < k
        → t.dsoffsets j ≡ jumps * l.server_stripe_sizes j)

update_other : (a : ℕ → ℕ) (i v j : ℕ) → j < i → update a i v j ≡ a j
update_other a i v j h = ground arith

update_same : (a : ℕ → ℕ) (i v : ℕ) → update a i v i ≡ v
update_same a i v = ground (arith, ==_refl i)

place_server-Placed :
    (l : Layout) (jumps remainder k : ℕ) (o : Option ℕ) (t : Trace)
    → Placed l jumps remainder k (o, t)
    → Placed l jumps remainder (suc k) (place_server l jumps k o t)
unfolding place_server sum_upto
place_server-Placed l jumps remainder k none t (h, p, q, before, here, after) = (
  omega arith,
  p,
  q,
  (λ j c. ground (arith, before j c)),
  ground (arith, here),
  λ j c d. ground (arith, after j c),
)
place_server-Placed l jumps remainder k (some left) t (q, before) =
    elim (Bool-cases (leb left (l.server_stripe_sizes k))) [
      | inl fits ↦ rw fits (
        omega arith,
        ground arith,
        omega arith,
        (λ j c. ground (arith, before j c)),
        update_same t.dsoffsets k _,
        λ j c d. ground arith,
      )
      | inr passes ↦ rw passes (ground arith, λ j c. ground (arith, before j))
    ]

pub place_upto-Placed :
    (l : Layout) (jumps remainder n : ℕ) (t : Trace)
    → Placed l jumps remainder n (place_upto l jumps n (some remainder) t)
unfolding place_upto sum_upto
place_upto-Placed l jumps remainder zero t = (omega arith, λ j h. elim h [ ])
place_upto-Placed l jumps remainder (suc n) t =
    place_server-Placed l jumps remainder n _ _ (place_upto-Placed l jumps remainder n t)

-- The members that say where a trace is.
abbrev pub SamePlace : Trace → Trace → Type 0
SamePlace t' t =
    (t'.offset_start_server ≡ t.offset_start_server)
    × (t'.offset_start_position ≡ t.offset_start_position)
    × (t'.dsoffsets ≡ t.dsoffsets)
    × (t'.layout ≡ t.layout)

pub fill_window-SamePlace :
    (t : Trace) (l : Layout) (agg : ℕ) (o : Option (ℕ → ℕ)) → SamePlace (fill_window t l agg o) t
unfolding fill_window
fill_window-SamePlace t l agg none = (refl, refl, refl, refl)
fill_window-SamePlace t l agg (some sizes) = (refl, refl, refl, refl)

open_from-SamePlace : (o : Option Layout) (t : Trace) → SamePlace (open_from o t).1 t
unfolding open_from
open_from-SamePlace none t = (refl, refl, refl, refl)
open_from-SamePlace (some l) t = elim (Bool-cases (t.unprocessed_size == 0)) [
  | inl done ↦ rw done (refl, refl, refl, refl)
  | inr more ↦ rw more (fill_window-SamePlace t l _ _)
]

-- An opened window leaves the place of the trace.
pub open_new_window-SamePlace : (t : Trace) → SamePlace (open_new_window t).1 t
unfolding open_new_window
open_new_window-SamePlace t = open_from-SamePlace t.layout t

pub settle :
    (l : Layout) (jumps remainder k : ℕ) (o : Option ℕ) (t : Trace)
    → remainder < sum_upto k l.server_stripe_sizes
    → Placed l jumps remainder k (o, t)
    → Placed l jumps remainder k (none, t)
settle l jumps remainder k none t h placed = placed
settle l jumps remainder k (some left) t h (q, before) = elim (impossible q) [ ]
  where
    impossible : left + sum_upto k l.server_stripe_sizes ≡ remainder → ⊥
    impossible e = omega arith

Placed-begin :
    (l : Layout) (jumps remainder k : ℕ) (t : Trace)
    → Placed l jumps remainder k (none, t)
    → Placed l jumps remainder k (none, begin l t)
unfolding begin
Placed-begin l jumps remainder k t placed =
    let (server, position, offsets, _) = open_new_window-SamePlace (record t {
      layout = some l;
      data_size_in_window = fill_cells l.server_num (λ i. 0) t.data_size_in_window;
    }) in
    rw (server, position, offsets) placed

place-none :
    (l : Layout) (w : ℕ) (t : Trace)
    → 0 < w
    → w ≡ sum_upto l.server_num l.server_stripe_sizes
    → Placed l (t.offset / w) (t.offset % w) l.server_num (none, set_from (w, l) t)
unfolding set_from
place-none l w t pos e = Placed-begin l _ _ l.server_num placed.1 (
    settle l _ _ l.server_num placed.0 placed.1 (omega arith)
      (place_upto-Placed l _ _ l.server_num t))
  where
    placed : Option ℕ × Trace
    placed = place_upto l (t.offset / w) l.server_num (some (t.offset % w)) t

pub known_window_size : (l : Layout) (w : ℕ) → l.window_size ≡ some w → get_window_size l ≡ (w, l)
unfolding get_window_size
known_window_size l w e = rw e refl

-- Where the window size is the sum of the stripes and not 0, `setLayout` puts the trace where its
-- offset falls when the file is striped over the servers in rounds of one stripe each. With
-- `jumps` full rounds before the offset: the start server is one of the layout, the stripes before
-- it and the position in it make up what the offset has over the full rounds, and every server's
-- own offset is the number of bytes before the offset that lie on it.
pub set_layout-place :
    (l : Layout) (t : Trace)
    → l.window_size ≡ some (sum_upto l.server_num l.server_stripe_sizes)
    → 0 < sum_upto l.server_num l.server_stripe_sizes
    → let w = sum_upto l.server_num l.server_stripe_sizes in
      Placed l (t.offset / w) (t.offset % w) l.server_num (none, set_layout l t)
unfolding set_layout
set_layout-place l t e pos = rw (known_window_size l _ e) (place-none l _ t pos refl)
