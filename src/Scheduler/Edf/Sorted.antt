-- ===== src/Scheduler/Edf/Sorted.antt =====
-- Lists in the order of a key, earliest first.
use pfssim.Base.{
  ◌+◌, ◌≡◌, refl, ap, inl, inr, Bool, true, false, not, List, [], ◌∷◌, ◌++◌, arith, All, Arith,
  IsOrder, count_by, count_by-cons, if◌then◌else◌, Bool-cases,
}
use pfssim.Scheduler.Edf.{insert_by, count_early}

unfoldable pub filter_by {ℓ} : {A : Type ℓ} → (A → Bool) → List A → List A
filter_by p [] = []
filter_by p (x ∷ xs) = if p x then x ∷ filter_by p xs else filter_by p xs

module _ (F : Arith) {A : Type 0} (key : A → F.Double) where
  -- No key of the list is below the bound.
  abbrev pub NoneBelow : F.Double → List A → Type 0
  NoneBelow k = All λ y. F.lt (key y) k ≡ false

  abbrev pub IsSortedBy : List A → Type 0
  IsSortedBy [] = Unit
  IsSortedBy (x ∷ xs) = NoneBelow (key x) xs × IsSortedBy xs

  pub insert_by-counts :
      (p : A → Bool) (x : A) (xs : List A)
      → count_by p (insert_by F key x xs) ≡ count_by p xs + count_by p (x ∷ [])
  unfolding insert_by
  insert_by-counts p x [] = ground (arith, count_by-cons p x [])
  insert_by-counts p x (y ∷ ys) = ground (
    arith,
    insert_by-counts p x ys,
    count_by-cons p x (y ∷ ys),
    count_by-cons p y ys,
    count_by-cons p y (insert_by F key x ys),
  )

module _ (F : Arith) (o : IsOrder F) {A : Type 0} (key : A → F.Double) where
  open o use {lt_irrefl, lt_asymm, nlt_trans}

  NoneBelow-trans :
      (j k : F.Double) (xs : List A)
      → F.lt k j ≡ false
      → NoneBelow F key k xs
      → NoneBelow F key j xs
  NoneBelow-trans j k [] h n = tt
  NoneBelow-trans j k (x ∷ xs) h n = (nlt_trans j k (key x) h n.0, NoneBelow-trans j k xs h n.1)

  NoneBelow-insert :
      (k : F.Double) (x : A) (xs : List A)
      → F.lt (key x) k ≡ false
      → NoneBelow F key k xs
      → NoneBelow F key k (insert_by F key x xs)
  unfolding insert_by
  NoneBelow-insert k x [] h n = (h, tt)
  NoneBelow-insert k x (y ∷ ys) h n = elim (Bool-cases (F.lt (key x) (key y))) [
    | inl e ↦ rw e (h, n)
    | inr e ↦ rw e (n.0, NoneBelow-insert k x ys h n.1)
  ]

  pub insert_by-IsSortedBy :
      (x : A) (xs : List A) → IsSortedBy F key xs → IsSortedBy F key (insert_by F key x xs)
  unfolding insert_by
  insert_by-IsSortedBy x [] s = (tt, tt)
  insert_by-IsSortedBy x (y ∷ ys) s = elim (Bool-cases (F.lt (key x) (key y))) [
    | inl e ↦ rw e (
      (
        lt_asymm (key x) (key y) e,
        NoneBelow-trans (key x) (key y) ys (lt_asymm (key x) (key y) e) s.0,
      ),
      s,
    )
    | inr e ↦ rw e (NoneBelow-insert (key y) x ys e s.0, insert_by-IsSortedBy x ys s.1)
  ]

  lt_before : (a b c : F.Double) → F.lt a b ≡ true → F.lt c b ≡ false → F.lt a c ≡ true
  lt_before a b c e n = elim (Bool-cases (F.lt a c)) [
    | inl h ↦ h
    | inr h ↦ absurd (cc (nlt_trans b c a n h))
  ]

  -- What does not come before `x` in a list of keys past `x` is all of it.
  filter_late :
      (x : A) (y : A) (ys : List A)
      → F.lt (key x) (key y) ≡ true
      → NoneBelow F key (key y) ys
      → (filter_by (λ z. not (F.lt (key x) (key z))) ys ≡ [])
        × (filter_by (λ z. F.lt (key x) (key z)) ys ≡ ys)
  unfolding filter_by
  filter_late x y [] e n = (refl, refl)
  filter_late x y (z ∷ zs) e n =
      let (none_before, all_after) = filter_late x y zs e n.1 in
      rw (lt_before (key x) (key y) (key z) e n.0) (none_before, ap (λ l. z ∷ l) all_after)

  -- In a sorted list the entry goes behind all whose key is not above its own, in their order, and
  -- before all the others.
  pub insert_by-filter :
      (x : A) (xs : List A)
      → IsSortedBy F key xs
      → insert_by F key x xs
        ≡ filter_by (λ y. not (F.lt (key x) (key y))) xs
          ++ x ∷ filter_by (λ y. F.lt (key x) (key y)) xs
  unfolding insert_by filter_by
  insert_by-filter x [] s = refl
  insert_by-filter x (y ∷ ys) s = elim (Bool-cases (F.lt (key x) (key y))) [
    | inl e ↦
        let (none_before, all_after) = filter_late x y ys e s.0 in
        rw (e, none_before, all_after) refl
    | inr e ↦ rw e (ap (λ l. y ∷ l) (insert_by-filter x ys s.1))
  ]

  none_early :
      (d : F.Double) (xs : List A) → NoneBelow F key d xs → count_by (λ y. F.lt (key y) d) xs ≡ 0
  unfolding count_by
  none_early d [] n = refl
  none_early d (x ∷ xs) n = ground (arith, none_early d xs n.1)

  -- In a sorted list the scan that stops at the first entry that is not early counts all early ones.
  pub count_early-count_by :
      (d : F.Double) (xs : List A)
      → IsSortedBy F key xs
      → count_early F key d xs ≡ count_by (λ y. F.lt (key y) d) xs
  unfolding count_early count_by
  count_early-count_by d [] s = refl
  count_early-count_by d (x ∷ xs) s = elim (Bool-cases (F.lt (key x) d)) [
    | inl e ↦ rw e (omega (arith, count_early-count_by d xs s.1))
    | inr e ↦ rw e (omega (arith, none_early d xs (NoneBelow-trans d (key x) xs e s.0)))
  ]
