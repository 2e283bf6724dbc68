-- ===== src/Trace/Distribute.antt =====
-- The loop of `openNewWindow` (omnetpp/trace/WindowBasedTrace.cc) that divides a window among the
-- servers.
use pfssim.Base.{
  ℕ, zero, suc, ◌+◌, ◌-◌, ◌≤◌, ◌<◌, ◌≡◌, refl, sym, inl, inr, Bool, true, false, not, ◌&&◌, Option,
  none, some, arith, Bool-cases, ltb, ◌==◌, ==_iff, ==_refl, if◌then◌else◌, update,
}
use pfssim.Layout.{Layout, sum_upto}
use pfssim.Trace.{Trace, distribute, shares}

-- What a search for the amounts returns: it ends, and they add up to `total`.
abbrev pub AddsUp : Layout → ℕ → Option (ℕ → ℕ) → Type 0
AddsUp l total none = ⊥
AddsUp l total (some sizes) = sum_upto l.server_num sizes ≡ total

-- Where the loop of a window is well defined: every stripe has a size, and the start is inside a
-- server's stripe.
pub record IsStriped (server position : ℕ) (l : Layout) : Type 0 where
  pub start_server : server < l.server_num
  pub start_position : position ≤ l.server_stripe_sizes server
  pub stripes : (i : ℕ) → i < l.server_num → 0 < l.server_stripe_sizes i

-- `IsStriped` of a trace.
abbrev pub Striped : Trace → Layout → Type 0
Striped t l = IsStriped t.offset_start_server t.offset_start_position l

sum_upto-update_above :
    (n : ℕ) (a : ℕ → ℕ) (i v : ℕ) → n ≤ i → sum_upto n (update a i v) ≡ sum_upto n a
unfolding sum_upto
sum_upto-update_above zero a i v h = refl
sum_upto-update_above (suc n) a i v h = ground (arith, sum_upto-update_above n a i v, ==_iff n i)

pub sum_upto-update :
    (n : ℕ) (a : ℕ → ℕ) (i v : ℕ) → i < n → sum_upto n (update a i v) + a i ≡ sum_upto n a + v
unfolding sum_upto
sum_upto-update zero a i v h = elim h [ ]
sum_upto-update (suc n) a i v h = elim (Bool-cases (n == i)) [
  | inl hit ↦ at_hit ((==_iff n i).0 hit)
  | inr miss ↦ rw miss (omega (arith, sum_upto-update n a i v (below miss)))
]
  where
    below : (n == i) ≡ false → i < n
    below e = ground arith

    at_hit : n ≡ i → sum_upto (suc n) (update a i v) + a i ≡ sum_upto (suc n) a + v
    at_hit e =
        rw (sym e) (rw (==_refl n) (omega (arith, sum_upto-update_above n a n v (omega arith))))

pub sum_upto-zero : (n : ℕ) → sum_upto n (λ i. 0) ≡ 0
unfolding sum_upto
sum_upto-zero zero = refl
sum_upto-zero (suc n) = omega (arith, sum_upto-zero n)

-- One round: an amount goes to a server, and the rest is for the other rounds.
distribute-AddsUp :
    (t : Trace) (l : Layout) (s : Striped t l) (total : ℕ) (fuel i left : ℕ) (first : Bool)
    (sizes : ℕ → ℕ)
    → i ≤ l.server_num
    → left + (if first then 2 else 1) ≤ fuel
    → sum_upto l.server_num sizes + left ≡ total
    → AddsUp l total (distribute t l fuel i left first sizes)
unfolding distribute
distribute-AddsUp t l s total zero i left first sizes hi hf e = elim (impossible hf) [ ]
  where
    impossible : left + (if first then 2 else 1) ≤ 0 → ⊥
    impossible h = ground arith
distribute-AddsUp t l s total (suc fuel) i left first sizes hi hf e =
    elim (Bool-cases (left == 0)) [
      | inl dry ↦ rw dry (ground arith)
      | inr wet ↦ rw wet (
          distribute-AddsUp t l s total fuel (at + 1) rest (first && not starts)
            (update sizes at (sizes at + placed)) (inside at_lt) (enough wet starts refl)
            (conserved at_lt))
    ]
  where
    at : ℕ
    at = if i == l.server_num then 0 else i

    starts : Bool
    starts = (at == t.offset_start_server) && first

    inc : ℕ
    inc =
        if starts
        then l.server_stripe_sizes at - t.offset_start_position
        else l.server_stripe_sizes at

    placed : ℕ
    placed = if ltb inc left then inc else left

    rest : ℕ
    rest = if ltb inc left then left - inc else 0

    at_lt : at < l.server_num
    at_lt = ground (arith, s.start_server)

    inside : at < l.server_num → at + 1 ≤ l.server_num
    inside h = omega arith

    conserved :
        at < l.server_num
        → sum_upto l.server_num (update sizes at (sizes at + placed)) + rest ≡ total
    conserved h = ground (arith, sum_upto-update l.server_num sizes at (sizes at + placed) h)

    enough :
        (left == 0) ≡ false
        → (b : Bool) → starts ≡ b
        → rest + (if first && not starts then 2 else 1) ≤ fuel
    enough wet true q = ground arith
    enough wet false q = ground (arith, s.stripes at at_lt)

-- The loop of `openNewWindow` ends, and divides the whole window: where every stripe has a size and
-- the start is inside a server's stripe, the fuel of `shares` is enough, and the servers' amounts add
-- up to the size of the window.
pub shares-AddsUp :
    (t : Trace) (l : Layout) → Striped t l → (agg : ℕ) → AddsUp l agg (shares t l agg)
unfolding shares
shares-AddsUp t l s agg =
    distribute-AddsUp t l s agg (suc (suc agg)) t.offset_start_server agg true (λ i. 0)
      (omega (arith, s.start_server)) (omega arith) (omega (arith, sum_upto-zero l.server_num))
