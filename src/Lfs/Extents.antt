-- ===== src/Lfs/Extents.antt =====
-- omnetpp/dserver/lfs/ILFS.cc: `findExtEntry`, the binary search in the extents of a file.
mod Tests
use native.Mathlib.Decide.{dec_lt}
use pfssim.Base.{
  ℕ, zero, suc, ◌+◌, ◌-◌, ◌/◌, ◌≤◌, ◌<◌, ◌≡◌, refl, sym, ap, subst, ◌∙◌, inl, inr, ◌⊎◌, Bool, true,
  false, Option, none, some, ltb, leb, ◌==◌, ==_iff, if◌then◌else◌, Bool-cases, arith,
}

-- `ext_t`; `accessed` is -1 or 1 there.
pub record Extent : Type 0 where
  pub logistart : ℕ
  pub phystart : ℕ
  pub length : ℕ
  pub accessed : Bool

-- The first address after an extent.
abbrev pub ext_end : Extent → ℕ
ext_end x = x.logistart + x.length

-- The loop, on fuel; the outer `none` means that the fuel ran out, the inner one is -1. `stop` is
-- the source's `end + 1`, since `end` can become -1.
unfoldable pub search : (ℕ → Extent) → ℕ → ℕ → ℕ → ℕ → Option (Option ℕ)
search xs addr zero start stop = none
search xs addr (suc fuel) start stop =
    let middle = (start + (stop - 1)) / 2 in
    let left = search xs addr fuel start middle in
    let right = search xs addr fuel (middle + 1) stop in
    if ltb addr (xs middle).logistart
    then (if leb middle start then some none else left)
    else if leb (ext_end (xs middle)) addr
    then (if leb stop (middle + 1) then some none else right)
    else some (some middle)

unfoldable pub found : Option (Option ℕ) → Option ℕ
found none = none
found (some o) = o

-- `findExtEntry` for a file with `num` extents; `none` is -1. Without an extent, the source reads
-- before the array. The fuel is shown to be enough.
unfoldable pub find_ext_entry : Option (ℕ → Extent) → ℕ → ℕ → Option ℕ
unfolding found
find_ext_entry none num addr = none
find_ext_entry (some xs) zero addr = none
find_ext_entry (some xs) (suc last) addr =
    if ltb (ext_end (xs last)) addr
    then none
    else if addr == ext_end (xs last)
    then some (suc last)
    else found (search xs addr (suc last) 0 (suc last))

-- The extents of a file follow each other from address 0.
pub record IsContiguous (xs : ℕ → Extent) (num : ℕ) : Type 0 where
  pub from_zero : (xs 0).logistart ≡ 0
  pub follows : (i : ℕ) → suc i < num → (xs (suc i)).logistart ≡ ext_end (xs i)

-- The extent `m` of the file holds the address.
abbrev pub Holds : (ℕ → Extent) → ℕ → ℕ → ℕ → Type 0
Holds xs num addr m = (m < num) × ((xs m).logistart ≤ addr) × (addr < ext_end (xs m))

abbrev Hits : (ℕ → Extent) → ℕ → ℕ → Option (Option ℕ) → Type 0
Hits xs num addr none = ⊥
Hits xs num addr (some none) = ⊥
Hits xs num addr (some (some m)) = Holds xs num addr m

closed : (a b : ℕ) → b < a → leb a b ≡ false
closed a b h = ground arith

minus_suc : (m : ℕ) → suc m - 1 ≡ m
minus_suc m = omega arith

minus_one : (m : ℕ) → m + 1 - 1 ≡ m
minus_one m = omega arith

module _ (xs : ℕ → Extent) (num addr : ℕ) (c : IsContiguous xs num) where
  starts_at_end : (m : ℕ) → 0 < m → m < num → (xs m).logistart ≡ ext_end (xs (m - 1))
  starts_at_end zero h k = absurd (omega arith)
  starts_at_end (suc m) h k = c.follows m k ∙ ap (λ i. ext_end (xs i)) (omega arith)

  -- An index that is not before `start` and starts after the address is after `start`.
  after_start :
      (start m : ℕ) → start ≤ m → (xs start).logistart ≤ addr → addr < (xs m).logistart → start < m
  after_start start m h low high = elim (dec_lt start m) [
    | yes lt ↦ lt
    | no ge ↦ absurd (same (omega arith))
  ]
    where
      same : start ≡ m → ⊥
      same e = omega (arith, low, subst (λ i. addr < (xs i).logistart) (sym e) high)

  -- An index that is not after `last` and ends before the address is before `last`.
  before_last :
      (last m : ℕ) → m ≤ last → addr < ext_end (xs last) → ext_end (xs m) ≤ addr → m < last
  before_last last m h high low = elim (dec_lt m last) [
    | yes lt ↦ lt
    | no ge ↦ absurd (same (omega arith))
  ]
    where
      same : last ≡ m → ⊥
      same e = omega (arith, low, subst (λ i. addr < ext_end (xs i)) e high)

  -- The part of the list that is left holds the address.
  search-Hits :
      (fuel start stop : ℕ)
      → start < stop
      → stop ≤ num
      → stop ≤ start + fuel
      → (xs start).logistart ≤ addr
      → addr < ext_end (xs (stop - 1))
      → Hits xs num addr (search xs addr fuel start stop)
  unfolding search
  search-Hits zero start stop h inside enough low high = absurd (omega arith)
  search-Hits (suc fuel) start stop h inside enough low high =
      elim (Bool-cases (ltb addr (xs middle).logistart)) [
        | inl before ↦
            rw (before, closed middle start (at_left before))
              (search-Hits fuel start middle (at_left before) (omega arith)
                (omega (arith, at_left before)) low (left_high before))
        | inr notbefore ↦ elim (Bool-cases (leb (ext_end (xs middle)) addr)) [
          | inl after ↦
              rw (notbefore, after, closed stop (middle + 1) (at_right after))
                (search-Hits fuel (middle + 1) stop (at_right after) inside (omega arith)
                  (right_low after) high)
          | inr within ↦ rw (notbefore, within) (omega arith, ground arith, ground arith)
        ]
      ]
    where
      middle : ℕ
      middle = (start + (stop - 1)) / 2

      at_left : ltb addr (xs middle).logistart ≡ true → start < middle
      at_left e = after_start start middle (omega arith) low (ground arith)

      left_high : ltb addr (xs middle).logistart ≡ true → addr < ext_end (xs (middle - 1))
      left_high e =
          ground (arith, starts_at_end middle (omega (arith, at_left e)) (omega (arith, at_left e)))

      at_right : leb (ext_end (xs middle)) addr ≡ true → middle + 1 < stop
      at_right e = omega (arith, before_last (stop - 1) middle (omega arith) high (ground arith))

      right_low : leb (ext_end (xs middle)) addr ≡ true → (xs (middle + 1)).logistart ≤ addr
      right_low e = ground (
        arith,
        starts_at_end (middle + 1) (omega arith) (omega (arith, at_right e)),
        ap (λ i. ext_end (xs i)) (minus_one middle),
      )

-- What `findExtEntry` returns: the extent that holds the address; the index of a new extent, if the
-- address is the end of the file; or -1, if it is after the end.
abbrev pub Answers : (ℕ → Extent) → ℕ → ℕ → Option ℕ → Type 0
Answers xs last addr none = ext_end (xs last) < addr
Answers xs last addr (some m) =
    Holds xs (suc last) addr m ⊎ ((m ≡ suc last) × (addr ≡ ext_end (xs last)))

found-Answers :
    (xs : ℕ → Extent) (last addr : ℕ) (o : Option (Option ℕ))
    → Hits xs (suc last) addr o
    → Answers xs last addr (found o)
unfolding found
found-Answers xs last addr none h = elim h [ ]
found-Answers xs last addr (some none) h = elim h [ ]
found-Answers xs last addr (some (some m)) h = inl h

-- For a file whose extents follow each other from address 0, the search ends and is complete: an
-- address in the file gets the extent that holds it, the end of the file gets the index after the
-- last extent, and only an address after that gets -1.
pub find_ext_entry-Answers :
    (xs : ℕ → Extent) (last addr : ℕ)
    → IsContiguous xs (suc last)
    → Answers xs last addr (find_ext_entry (some xs) (suc last) addr)
unfolding find_ext_entry
find_ext_entry-Answers xs last addr c = elim (Bool-cases (ltb (ext_end (xs last)) addr)) [
  | inl outside ↦ rw outside (ground arith)
  | inr inside ↦ elim (Bool-cases (addr == ext_end (xs last))) [
    | inl at_end ↦ rw (inside, at_end) (inr (refl, (==_iff addr (ext_end (xs last))).0 at_end))
    | inr before ↦
        rw (inside, before)
          (found-Answers xs last addr _ (
            search-Hits xs (suc last) addr c (suc last) 0 (suc last) (omega arith) (omega arith)
              (omega arith) (omega (arith, c.from_zero))
              (subst (λ i. addr < ext_end (xs i)) (sym (minus_suc last)) (ground arith))))
  ]
]
