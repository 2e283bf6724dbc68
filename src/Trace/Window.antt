-- ===== src/Trace/Window.antt =====
-- The cells of a window (omnetpp/trace/WindowBasedTrace.cc): the bytes that are still to be sent.
use pfssim.Base.{
  ℕ, zero, suc, ◌+◌, ◌≤◌, ◌<◌, ◌≡◌, refl, sym, ap, subst, ◌∙◌, inl, inr, Bool, true, false, ◌||◌,
  Option, none, some, arith, Bool-cases, ltb, ◌==◌, ==_iff, update,
}
use pfssim.Layout.{sum_upto}
use pfssim.Layout.Laws.{sum_upto-agree}
use pfssim.Trace.{Slot, unsent, received, sent, first_unsent, any_open, fill_cells}
use pfssim.Trace.Distribute.{sum_upto-update, sum_upto-zero}

abbrev pub amount : Slot → ℕ
amount (unsent k) = k
amount received = 0
amount sent = 0

-- The bytes to send in the cells below `n`.
abbrev pub pending : ℕ → (ℕ → Slot) → ℕ
pending n cells = sum_upto n (λ i. amount (cells i))

-- What a search for an unsent cell returns.
abbrev pub FirstUnsent : (ℕ → Slot) → ℕ → ℕ → Option (ℕ × ℕ) → Type 0
FirstUnsent cells i n none = (j : ℕ) → i ≤ j → j < i + n → amount (cells j) ≡ 0
FirstUnsent cells i n (some (j, k)) = (j < i + n) × (cells j ≡ unsent k) × (0 < k)

extend :
    (cells : ℕ → Slot) (i n : ℕ) (o : Option (ℕ × ℕ))
    → amount (cells i) ≡ 0
    → FirstUnsent cells (i + 1) n o
    → FirstUnsent cells i (suc n) o
extend cells i n none e h = λ j b c. elim (Bool-cases (j == i)) [
  | inl hit ↦ rw ((==_iff j i).0 hit) e
  | inr miss ↦ h j (ground arith) (omega arith)
]
extend cells i n (some (j, k)) e (b, c, d) = (omega arith, c, d)

below : (i n : ℕ) → i < n → ltb i n ≡ true
below i n h = ground arith

first_at :
    (cells : ℕ → Slot) (i n : ℕ) (c : Slot)
    → cells i ≡ c
    → FirstUnsent cells (i + 1) n (first_unsent cells (i + 1) n)
    → FirstUnsent cells i (suc n) (first_unsent cells i (suc n))
unfolding first_unsent
first_at cells i n (unsent zero) e rest =
    subst (λ o. FirstUnsent cells i (suc n) o) (sym passed) (extend cells i n _ (ap amount e) rest)
  where
    passed : first_unsent cells i (suc n) ≡ first_unsent cells (i + 1) n
    passed = rw (first_unsent, e) refl
first_at cells i n (unsent (suc k)) e rest =
    subst (λ o. FirstUnsent cells i (suc n) o) (sym taken) (omega arith, e, omega arith)
  where
    taken : first_unsent cells i (suc n) ≡ some (i, suc k)
    taken = rw (first_unsent, e, below 0 (suc k) (omega arith)) refl
first_at cells i n received e rest = rw (first_unsent, e) (extend cells i n _ (ap amount e) rest)
first_at cells i n sent e rest = rw (first_unsent, e) (extend cells i n _ (ap amount e) rest)

pub first_unsent-FirstUnsent :
    (cells : ℕ → Slot) (i n : ℕ) → FirstUnsent cells i n (first_unsent cells i n)
unfolding first_unsent
first_unsent-FirstUnsent cells i zero = λ j b c. absurd (omega arith)
first_unsent-FirstUnsent cells i (suc n) =
    first_at cells i n (cells i) refl (first_unsent-FirstUnsent cells (i + 1) n)

-- Where no cell is unsent, nothing is pending.
pub pending_none :
    (n : ℕ) (cells : ℕ → Slot) → ((j : ℕ) → j < n → amount (cells j) ≡ 0) → pending n cells ≡ 0
pending_none n cells h = sum_upto-agree n _ (λ i. 0) h ∙ sum_upto-zero n

amount-update :
    (cells : ℕ → Slot) (i : ℕ) (c : Slot) (j : ℕ)
    → amount (update cells i c j) ≡ update (λ k. amount (cells k)) i (amount c) j
amount-update cells i c j = elim (Bool-cases (j == i)) [
  | inl hit ↦ rw hit refl
  | inr miss ↦ rw miss refl
]

-- A cell that changes takes its amount with it.
pub pending-update :
    (n : ℕ) (cells : ℕ → Slot) (i : ℕ) (c : Slot)
    → i < n
    → pending n (update cells i c) + amount (cells i) ≡ pending n cells + amount c
pending-update n cells i c h =
    ap (λ x. x + amount (cells i)) (sum_upto-agree n _ _ (λ j b. amount-update cells i c j))
    ∙ sum_upto-update n (λ j. amount (cells j)) i (amount c) h

pub pending-fill_cells :
    (n : ℕ) (sizes : ℕ → ℕ) (cells : ℕ → Slot)
    → pending n (fill_cells n sizes cells) ≡ sum_upto n sizes
unfolding fill_cells
pending-fill_cells n sizes cells = sum_upto-agree n _ sizes (λ i h. rw (below i n h) refl)

or_false : (a b : Bool) → (a || b) ≡ false → (a ≡ false) × (b ≡ false)
or_false true b h = ground (arith, h)
or_false false b h = (refl, h)

-- Whether a cell counts for `any_open`.
abbrev is_open : Slot → Bool
is_open (unsent k) = ltb 0 k
is_open sent = true
is_open received = false

settled :
    (n : ℕ) (cells : ℕ → Slot) (c : Slot)
    → cells n ≡ c
    → is_open c ≡ false
    → pending n cells ≡ 0
    → pending (suc n) cells ≡ 0
unfolding sum_upto
settled n cells (unsent k) e closed ih = rw e (ground arith)
settled n cells received e closed ih = rw e (omega arith)
settled n cells sent e closed ih = rw e (omega arith)

-- Where no cell is open, nothing is pending.
pub pending-any_open : (n : ℕ) (cells : ℕ → Slot) → any_open cells n ≡ false → pending n cells ≡ 0
unfolding any_open sum_upto
pending-any_open zero cells h = refl
pending-any_open (suc n) cells h =
    settled n cells (cells n) refl (or_false _ _ h).1 (pending-any_open n cells (or_false _ _ h).0)
