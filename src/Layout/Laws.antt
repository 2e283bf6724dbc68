-- ===== src/Layout/Laws.antt =====
-- The answer to a layout query carries the whole layout, and servers are found by their ID.
use pfssim.Base.{
  ==_iff, ℕ, zero, suc, ◌+◌, ◌≤◌, ◌<◌, ◌≡◌, ◌≢◌, refl, sym, ap, ◌∙◌, inl, inr, Option, none, some,
  arith, Bool-cases, ◌==◌,
}
use native.Mathlib.Decide.{dec_lt}
use pfssim.Layout.{
  Layout, QPacket, copy_upto, sum_upto, set_layout, set_q_packet, find_from, find_server_index,
}

pub copy_upto_below : (n : ℕ) (from to : ℕ → ℕ) (i : ℕ) → i < n → copy_upto n from to i ≡ from i
unfolding copy_upto
copy_upto_below zero from to i h = elim h [ ]
copy_upto_below (suc n) from to i h = elim (Bool-cases (i == n)) [
  | inl hit ↦ rw hit (ap from (sym ((==_iff i n).0 hit)))
  | inr miss ↦ rw miss (copy_upto_below n from to i (ground arith))
]

pub sum_upto-agree :
    (n : ℕ) (a b : ℕ → ℕ) → ((i : ℕ) → i < n → a i ≡ b i) → sum_upto n a ≡ sum_upto n b
unfolding sum_upto
sum_upto-agree zero a b h = refl
sum_upto-agree (suc n) a b h =
    omega (arith, sum_upto-agree n a b (λ i k. h i (omega arith)), h n (omega arith))

-- What `setqPacket` writes into a reply and `setLayout` reads back is the layout: the number of
-- servers, each server's ID and stripe size, and as the window size the sum of the stripes, whatever
-- the packet and the reader's layout held before.
pub set_layout-set_q_packet :
    (l old : Layout) (qpkt : QPacket)
    → let l' = set_layout (set_q_packet l qpkt) old in
      (l'.file_id ≡ some qpkt.file_id)
      × (l'.server_num ≡ l.server_num)
      × ((i : ℕ) → i < l.server_num → l'.server_list i ≡ l.server_list i)
      × ((i : ℕ) → i < l.server_num → l'.server_stripe_sizes i ≡ l.server_stripe_sizes i)
      × (l'.window_size ≡ some (sum_upto l.server_num l.server_stripe_sizes))
unfolding set_layout set_q_packet
set_layout-set_q_packet l old qpkt = (
  refl,
  refl,
  (λ i h.
      copy_upto_below l.server_num _ old.server_list i h
      ∙ copy_upto_below l.server_num l.server_list qpkt.ds_list i h),
  (λ i h.
      copy_upto_below l.server_num _ old.server_stripe_sizes i h
      ∙ copy_upto_below l.server_num l.server_stripe_sizes qpkt.ds_stripe_sizes i h),
  ap some (
      sum_upto-agree l.server_num _ l.server_stripe_sizes
        (λ i h. copy_upto_below l.server_num l.server_stripe_sizes qpkt.ds_stripe_sizes i h)),
)

-- What a search returns: no index, if none in the range has the ID, or the first that has it.
abbrev pub Found : (ℕ → ℕ) → ℕ → ℕ → ℕ → Option ℕ → Type 0
Found servers id i n none = (j : ℕ) → i ≤ j → j < i + n → servers j ≢ id
Found servers id i n (some k) =
    (i ≤ k) × (k < i + n) × (servers k ≡ id) × ((j : ℕ) → i ≤ j → j < k → servers j ≢ id)

-- A miss at the first index of the range widens it.
miss_at :
    (servers : ℕ → ℕ) (id i j : ℕ)
    → servers i ≢ id
    → (i + 1 ≤ j → servers j ≢ id)
    → i ≤ j
    → servers j ≢ id
miss_at servers id i j here later h = elim (dec_lt i j) [
  | yes l ↦ later (omega arith)
  | no l ↦ let e : i ≡ j = omega arith in λ f. here (ap servers e ∙ f)
]

Found-earlier :
    (servers : ℕ → ℕ) (id i n : ℕ) (r : Option ℕ)
    → servers i ≢ id
    → Found servers id (i + 1) n r
    → Found servers id i (suc n) r
Found-earlier servers id i n none here f =
    λ j h k. miss_at servers id i j here (λ l. f j l (omega arith)) h
Found-earlier servers id i n (some k) here (low, high, hit, before) =
    (omega arith, omega arith, hit, λ j h l. miss_at servers id i j here (λ m. before j m l) h)

find_from-Found : (servers : ℕ → ℕ) (id i n : ℕ) → Found servers id i n (find_from servers id i n)
unfolding find_from
find_from-Found servers id i zero = λ j h k e. omega arith
find_from-Found servers id i (suc n) = elim (Bool-cases (servers i == id)) [
  | inl hit ↦
      rw hit
        (omega arith, omega arith, (==_iff (servers i) id).0 hit, λ j h k. absurd (omega arith))
  | inr miss ↦ rw miss (
      Found-earlier servers id i n (find_from servers id (i + 1) n) (ground arith)
        (find_from-Found servers id (i + 1) n))
]

-- `findServerIndex` returns the first index below `serverNum` that holds the ID, and -1 exactly if
-- none does.
pub find_server_index-Found :
    (id : ℕ) (l : Layout) → Found l.server_list id 0 l.server_num (find_server_index id l)
unfolding find_server_index
find_server_index-Found id l = find_from-Found l.server_list id 0 l.server_num
