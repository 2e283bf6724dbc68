-- ===== src/Client/Cells.antt =====
-- The cells of a window (omnetpp/trace/WindowBasedTrace.cc) that are to be sent: how many there are, and
-- what a packet that is sent changes.
use pfssim.Base.{
  ℕ, zero, suc, ◌+◌, ◌≤◌, ◌<◌, ◌≡◌, refl, ap, inl, inr, Bool, true, false, ◌||◌, Bool-cases, ltb,
  ◌==◌, ==_iff, ==_refl, if◌then◌else◌, update, arith,
}
use pfssim.Trace.{Slot, unsent, received, sent, any_sent}

-- Whether a cell has an amount to send, and how many cells have.
abbrev pub is_unsent : Slot → ℕ
is_unsent (unsent k) = if ltb 0 k then 1 else 0
is_unsent received = 0
is_unsent sent = 0

abbrev pub unsent_cells : ℕ → (ℕ → Slot) → ℕ
unsent_cells zero cells = 0
unsent_cells (suc n) cells = unsent_cells n cells + is_unsent (cells n)

is_unsent-le : (c : Slot) → is_unsent c ≤ 1
is_unsent-le (unsent k) = ground arith
is_unsent-le received = omega arith
is_unsent-le sent = omega arith

pub unsent_cells-le : (n : ℕ) (cells : ℕ → Slot) → unsent_cells n cells ≤ n
unsent_cells-le zero cells = omega arith
unsent_cells-le (suc n) cells = omega (arith, unsent_cells-le n cells, is_unsent-le (cells n))

at_index : (cells : ℕ → Slot) (i : ℕ) (c : Slot) → update cells i c i ≡ c
at_index cells i c = rw (==_refl i) refl

off_index :
    (cells : ℕ → Slot) (i j : ℕ) (c : Slot) → (j == i) ≡ false → update cells i c j ≡ cells j
off_index cells i j c e = rw e refl

unsent_cells-above :
    (n : ℕ) (cells : ℕ → Slot) (i : ℕ)
    → n ≤ i
    → unsent_cells n (update cells i sent) ≡ unsent_cells n cells
unsent_cells-above zero cells i h = refl
unsent_cells-above (suc n) cells i h = omega (
  arith,
  unsent_cells-above n cells i (omega arith),
  ap is_unsent (off_index cells i n sent (ground arith)),
)

-- A cell that is sent is one fewer to send.
pub unsent_cells-sent :
    (n : ℕ) (cells : ℕ → Slot) (i : ℕ)
    → i < n
    → is_unsent (cells i) ≡ 1
    → unsent_cells n (update cells i sent) + 1 ≡ unsent_cells n cells
unsent_cells-sent zero cells i h e = absurd (omega arith)
unsent_cells-sent (suc n) cells i h e = elim (Bool-cases (n == i)) [
  | inl hit ↦ at_last ((==_iff n i).0 hit)
  | inr miss ↦ omega (
    arith,
    unsent_cells-sent n cells i (ground arith) e,
    ap is_unsent (off_index cells i n sent miss),
  )
]
  where
    at_last : n ≡ i → unsent_cells (suc n) (update cells i sent) + 1 ≡ unsent_cells (suc n) cells
    at_last q = omega (
      arith,
      unsent_cells-above n cells i (omega arith),
      e,
      ap (λ k. is_unsent (cells k)) q,
      ap (λ k. is_unsent (update cells i sent k)) q,
      ap is_unsent (at_index cells i sent),
    )

or_true : (a b : Bool) → a ≡ true → (a || b) ≡ true
or_true a b e = rw e refl

or_right : (a : Bool) → (a || true) ≡ true
or_right true = refl
or_right false = refl

pub any_sent-sent :
    (n : ℕ) (cells : ℕ → Slot) (i : ℕ) → i < n → any_sent (update cells i sent) n ≡ true
unfolding any_sent
any_sent-sent zero cells i h = absurd (omega arith)
any_sent-sent (suc n) cells i h = elim (Bool-cases (n == i)) [
  | inl hit ↦ rw hit (or_right _)
  | inr miss ↦ or_true _ _ (any_sent-sent n cells i (ground arith))
]
