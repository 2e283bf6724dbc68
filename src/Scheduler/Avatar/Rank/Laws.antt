-- ===== src/Scheduler/Avatar/Rank/Laws.antt =====
-- `getValueByRank` of omnetpp/scheduler/I2L/AVATAR.cc finds the value of its rank.
use pfssim.Base.{
  ℕ, ◌+◌, ◌<◌, ◌≤◌, ◌≡◌, refl, inl, inr, Bool, true, false, not, Option, none, some, List, [], ◌∷◌,
  suc, zero, Bool-cases, Arith, IsOrder, All, length, count_by, count_by-cons, count_by-length,
  arith,
}
use pfssim.Scheduler.Avatar.Rank.{placed, held, place, chosen, round, select, get_value_by_rank}

-- `v` is the value that stands at index `n` when `xs` is sorted, largest first.
pub IsAtRank : (F : Arith) → F.Double → ℕ → List F.Double → Type 0
IsAtRank F v n xs = (count_by (λ y. F.lt v y) xs ≤ n) × (n < count_by (λ y. not (F.lt y v)) xs)

module _ (F : Arith) (o : IsOrder F) where
  open o use {lt_irrefl, lt_asymm, nlt_trans}

  abbrev NoneAbove : F.Double → List F.Double → Type 0
  NoneAbove b = All λ y. F.lt b y ≡ false

  Places : F.Double → F.Double → List F.Double → Option (F.Double × List F.Double) → Type 0
  Places h m ys none = NoneAbove m ys
  Places h m ys (some (b, r)) =
      (F.lt m b ≡ true)
      × NoneAbove b r
      × ((p : F.Double → Bool)
          → count_by p ys + count_by p (h ∷ []) ≡ count_by p r + count_by p (b ∷ []))

  lt_chain : (a b c : F.Double) → F.lt a b ≡ true → F.lt b c ≡ true → F.lt a c ≡ true
  lt_chain a b c l k = elim (Bool-cases (F.lt a c)) [
    | inl h ↦ h
    | inr h ↦ absurd (cc (nlt_trans b c a (lt_asymm b c k) h))
  ]

  placed-Places :
      (h m y : F.Double) (ys : List F.Double) (r : Option (F.Double × List F.Double))
      → F.lt m h ≡ false
      → F.lt m y ≡ true
      → Places h y ys r
      → Places h m (y ∷ ys) (placed F h y ys r)
  unfolding Places placed
  placed-Places h m y ys none n l k = (
    l,
    (nlt_trans h m y n (lt_asymm m y l), k),
    λ p. omega (arith, count_by-cons p y ys, count_by-cons p h ys),
  )
  placed-Places h m y ys (some (b, r)) n l k = (
    lt_chain m y b l k.0,
    (lt_asymm y b k.0, k.1),
    λ p. omega (arith, k.2 p, count_by-cons p y ys, count_by-cons p y r),
  )

  held-Places :
      (h m y : F.Double) (ys : List F.Double) (r : Option (F.Double × List F.Double))
      → F.lt m y ≡ false
      → Places h m ys r
      → Places h m (y ∷ ys) (held F y r)
  unfolding Places held
  held-Places h m y ys none l k = (l, k)
  held-Places h m y ys (some (b, r)) l k = (
    k.0,
    (nlt_trans y m b l (lt_asymm m b k.0), k.1),
    λ p. omega (arith, k.2 p, count_by-cons p y ys, count_by-cons p y r),
  )

  place-Places :
      (h m : F.Double) (ys : List F.Double) → F.lt m h ≡ false → Places h m ys (place F h m ys)
  unfolding Places place
  place-Places h m [] n = tt
  place-Places h m (y ∷ ys) n = elim (Bool-cases (F.lt m y)) [
    | inl l ↦ rw l (
        placed-Places h m y ys (place F h y ys) n l
          (place-Places h y ys (nlt_trans h m y n (lt_asymm m y l))))
    | inr l ↦ rw l (held-Places h m y ys (place F h m ys) l (place-Places h m ys n))
  ]

  -- What a round owes: its value is a largest one, and the rest holds the others.
  Largest : List F.Double → F.Double × List F.Double → Type 0
  Largest xs (b, r) =
      NoneAbove b r × ((p : F.Double → Bool) → count_by p xs ≡ count_by p r + count_by p (b ∷ []))

  chosen-Largest :
      (x : F.Double) (xs : List F.Double) (r : Option (F.Double × List F.Double))
      → Places x x xs r
      → Largest (x ∷ xs) (chosen F x xs r)
  unfolding Places Largest chosen
  chosen-Largest x xs none k = (k, λ p. omega (arith, count_by-cons p x xs))
  chosen-Largest x xs (some (b, r)) k = (k.1, λ p. omega (arith, k.2 p, count_by-cons p x xs))

  round-Largest : (x : F.Double) (xs : List F.Double) → Largest (x ∷ xs) (round F x xs)
  unfolding round
  round-Largest x xs = chosen-Largest x xs (place F x x xs) (place-Places x x xs (lt_irrefl x))

  none_above : (b : F.Double) (r : List F.Double) → NoneAbove b r → count_by (λ y. F.lt b y) r ≡ 0
  unfolding count_by
  none_above b [] k = refl
  none_above b (y ∷ ys) k = rw (k.0) (omega (arith, none_above b ys k.1))

  -- Past the largest value nothing is found.
  none_reaches :
      (v b : F.Double) (r : List F.Double)
      → F.lt b v ≡ true
      → NoneAbove b r
      → count_by (λ y. not (F.lt y v)) r ≡ 0
  unfolding count_by
  none_reaches v b [] l k = refl
  none_reaches v b (y ∷ ys) l k = elim (Bool-cases (F.lt y v)) [
    | inl e ↦ rw e (omega (arith, none_reaches v b ys l k.1))
    | inr e ↦ absurd (cc (nlt_trans v y b e k.0))
  ]

  first-IsAtRank :
      (xs : List F.Double) (b : F.Double) (r : List F.Double)
      → Largest xs (b, r)
      → IsAtRank F b 0 xs
  unfolding Largest IsAtRank count_by
  first-IsAtRank xs b r k = (
    ground (arith, k.1 (λ y. F.lt b y), none_above b r k.0, lt_irrefl b),
    ground (arith, k.1 (λ y. not (F.lt y b)), lt_irrefl b),
  )

  next-IsAtRank :
      (n : ℕ) (v : F.Double) (xs : List F.Double) (b : F.Double) (r : List F.Double)
      → Largest xs (b, r)
      → IsAtRank F v n r
      → IsAtRank F v (suc n) xs
  unfolding Largest IsAtRank count_by
  next-IsAtRank n v xs b r k i = (
    ground (arith, k.1 (λ y. F.lt v y), i.0),
    elim (Bool-cases (F.lt b v)) [
      | inl e ↦ absurd (omega (arith, none_reaches v b r e k.0, i.1))
      | inr e ↦ ground (arith, k.1 (λ y. not (F.lt y v)), e, i.1)
    ],
  )

  round-length : (x : F.Double) (xs : List F.Double) → length (round F x xs).1 ≡ length xs
  unfolding Largest
  round-length x xs = omega (
    arith,
    (round-Largest x xs).1 (λ a. true),
    count_by-length (x ∷ xs),
    count_by-length ((round F x xs).0 ∷ []),
    count_by-length (round F x xs).1,
  )

  select-IsAtRank :
      (n : ℕ) (xs : List F.Double)
      → n < length xs
      → (v : F.Double) × (select F n xs ≡ some v) × IsAtRank F v n xs
  unfolding select
  select-IsAtRank n [] h = absurd (omega (arith, h))
  select-IsAtRank zero (x ∷ xs) h = (
    (round F x xs).0,
    refl,
    first-IsAtRank (x ∷ xs) (round F x xs).0 (round F x xs).1 (round-Largest x xs),
  )
  select-IsAtRank (suc n) (x ∷ xs) h =
      let (v, e, i) = select-IsAtRank n (round F x xs).1 (omega (arith, h, round-length x xs)) in
      (v, e, next-IsAtRank n v (x ∷ xs) (round F x xs).0 (round F x xs).1 (round-Largest x xs) i)

  -- For values, a rank above 0 that is not above 1, and an index of the rank that is below their
  -- number, the search ends with the value that stands at that index when the values are sorted,
  -- largest first: at most so many are larger, and more are as large.
  pub get_value_by_rank-IsAtRank :
      (trunc : F.Double → ℕ) (one rank : F.Double) (xs : List F.Double) (n : ℕ)
      → F.lt one rank ≡ false
      → F.lt F.zero rank ≡ true
      → trunc (F.mul (F.of_nat (length xs)) (F.sub one rank)) ≡ n
      → n < length xs
      → (v : F.Double) × (get_value_by_rank F trunc one xs rank ≡ some v) × IsAtRank F v n xs
  unfolding get_value_by_rank
  get_value_by_rank-IsAtRank trunc one rank [] n u l e h = absurd (omega (arith, h))
  get_value_by_rank-IsAtRank trunc one rank (x ∷ xs) n u l e h =
      rw (u, l, e) (select-IsAtRank n (x ∷ xs) h)
