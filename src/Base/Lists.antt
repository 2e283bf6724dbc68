-- ===== src/Base/Lists.antt =====
-- Lists measured by native numbers, sums, and predicates on lists.
use Prim.Native.Nat.{ℕ, suc, ◌+◌, ◌≤◌}
use mathlib.Core.Path.{ap, ◌≡◌, refl}
use mathlib.Core.Logic.{inl, inr}
use mathlib.Core.Bool.{Bool, true, false}
use mathlib.Core.List.{List, [], ◌∷◌, ◌++◌, map}
use mathlib.Core.Option.{Option, none, some}
use native.Mathlib.Omega.{arith}
use pfssim.Base.Tests.{if◌then◌else◌, Bool-cases}

module _ {ℓ} {A : Type ℓ} where
  abbrev pub length : List A → ℕ
  length [] = 0
  length (x ∷ xs) = suc (length xs)

  -- `list::empty`.
  abbrev pub is_nil : List A → Bool
  is_nil [] = true
  is_nil (x ∷ xs) = false

  -- `list::front` and `list::back` of a list that may be empty.
  abbrev pub front? : List A → Option A
  front? [] = none
  front? (x ∷ xs) = some x

  abbrev pub back? : List A → Option A
  back? [] = none
  back? (x ∷ []) = some x
  back? (x ∷ y ∷ xs) = back? (y ∷ xs)

  -- A pointer that may be NULL, as the list of what it points to.
  abbrev pub to_list : Option A → List A
  to_list none = []
  to_list (some a) = a ∷ []

  -- The first element that passes the test, and the list without it.
  unfoldable pub find_by : (A → Bool) → List A → Option A
  find_by p [] = none
  find_by p (x ∷ xs) = if p x then some x else find_by p xs

  unfoldable pub remove_by : (A → Bool) → List A → List A
  remove_by p [] = []
  remove_by p (x ∷ xs) = if p x then xs else x ∷ remove_by p xs

  unfoldable pub count_by : (A → Bool) → List A → ℕ
  count_by p [] = 0
  count_by p (x ∷ xs) = (if p x then 1 else 0) + count_by p xs

  pub length-append : (xs ys : List A) → length (xs ++ ys) ≡ length xs + length ys
  length-append [] ys = omega arith
  length-append (x ∷ xs) ys = omega (arith, length-append xs ys)

  pub count_by-append :
      (p : A → Bool) (xs ys : List A) → count_by p (xs ++ ys) ≡ count_by p xs + count_by p ys
  unfolding count_by
  count_by-append p [] ys = omega arith
  count_by-append p (x ∷ xs) ys = omega (arith, count_by-append p xs ys)

  pub count_by-cons :
      (p : A → Bool) (x : A) (xs : List A)
      → count_by p (x ∷ xs) ≡ count_by p (x ∷ []) + count_by p xs
  unfolding count_by
  count_by-cons p x xs = omega arith

  pub count_by-nil : (p : A → Bool) → count_by p [] ≡ 0
  unfolding count_by
  count_by-nil p = refl

  pub count_by-one :
      (p : A → Bool) (x y : A) → p x ≡ p y → count_by p (x ∷ []) ≡ count_by p (y ∷ [])
  unfolding count_by
  count_by-one p x y h = ap (λ b. (if b then 1 else 0) + 0) h

  pub count_by-length : (xs : List A) → count_by (λ a. true) xs ≡ length xs
  unfolding count_by
  count_by-length [] = refl
  count_by-length (x ∷ xs) = omega (arith, count_by-length xs)

  -- Removing the first hit takes away that element, once.
  pub count_by-remove :
      (p t : A → Bool) (xs : List A)
      → count_by p xs ≡ count_by p (remove_by t xs) + count_by p (to_list (find_by t xs))
  unfolding count_by find_by remove_by
  count_by-remove p t [] = refl
  count_by-remove p t (x ∷ xs) = ground (arith, count_by-remove p t xs)

  pub length-remove_by-le : (t : A → Bool) (xs : List A) → length (remove_by t xs) ≤ length xs
  unfolding remove_by
  length-remove_by-le t [] = omega arith
  length-remove_by-le t (x ∷ xs) = ground (arith, length-remove_by-le t xs)

  -- Removing what another test finds does not change what a test finds.
  pub find_by-remove_by_ne :
      (t u : A → Bool) (xs : List A)
      → ((x : A) → u x ≡ true → t x ≡ false)
      → find_by t (remove_by u xs) ≡ find_by t xs
  unfolding find_by remove_by
  find_by-remove_by_ne t u [] h = refl
  find_by-remove_by_ne t u (x ∷ xs) h = ground (arith, h x, find_by-remove_by_ne t u xs h)

  pub find_by_absent : (t : A → Bool) (xs : List A) → count_by t xs ≡ 0 → find_by t xs ≡ none
  unfolding count_by find_by
  find_by_absent t [] h = refl
  find_by_absent t (x ∷ xs) h = ground (arith, find_by_absent t xs)

  -- Where at most one element passes the test, none does after it is removed.
  pub find_by-remove_by_self :
      (t : A → Bool) (xs : List A) → count_by t xs ≤ 1 → find_by t (remove_by t xs) ≡ none
  unfolding count_by find_by remove_by
  find_by-remove_by_self t [] h = refl
  find_by-remove_by_self t (x ∷ xs) h =
      ground (arith, find_by_absent t xs, find_by-remove_by_self t xs)

  -- An element at the end, where no other passes the test.
  pub find_by-snoc :
      (t : A → Bool) (xs : List A) (x : A)
      → count_by t xs ≡ 0
      → t x ≡ true
      → find_by t (xs ++ x ∷ []) ≡ some x
  unfolding count_by find_by
  find_by-snoc t [] x h e = rw e refl
  find_by-snoc t (y ∷ xs) x h e = ground (arith, find_by-snoc t xs x)

  pub remove_by-snoc :
      (t : A → Bool) (xs : List A) (x : A)
      → count_by t xs ≡ 0
      → t x ≡ true
      → remove_by t (xs ++ x ∷ []) ≡ xs
  unfolding count_by remove_by
  remove_by-snoc t [] x h e = rw e refl
  remove_by-snoc t (y ∷ xs) x h e = elim (Bool-cases (t y)) [
    | inl f ↦ absurd (ground arith)
    | inr f ↦ rw f (ap (λ zs. y ∷ zs) (remove_by-snoc t xs x (ground arith) e))
  ]

pub count_by-map {ℓ κ} :
    {A : Type ℓ} {B : Type κ} (p : B → Bool) (f : A → B) (xs : List A)
    → count_by p (map f xs) ≡ count_by (λ a. p (f a)) xs
unfolding count_by
count_by-map p f [] = refl
count_by-map p f (x ∷ xs) = omega (arith, count_by-map p f xs)

abbrev pub All {ℓ κ} : {A : Type ℓ} → (A → Type κ) → List A → Type κ
All P [] = Unit
All P (x ∷ xs) = P x × All P xs
