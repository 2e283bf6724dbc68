-- ===== src/Cache/Writeout/Parts.antt =====
-- The ranges that `setWriteout` (omnetpp/dserver/diskcache/DiskCache.cc) chooses are parts of the page tables.
use pfssim.Base.{
  ℕ, ◌-◌, ◌≤◌, ◌≡◌, refl, inl, inr, ◌⊎◌, none, some, List, [], ◌∷◌, ◌++◌, leb, Bool-cases, arith,
}
use pfssim.Cache.{PageRange}
use pfssim.Cache.Writeout.{can_write, Chosen, File, before_chosen, choose, choose_all, after_file}

-- The range is a part of the node from its first page on, with its flags.
abbrev pub IsPart : PageRange → PageRange → Type 0
IsPart x c = (x.start ≡ c.start) × (x.end ≤ c.end) × (x.flags ≡ c.flags)

-- The ranges are such parts of different nodes, in the order of the nodes.
unfoldable pub Parts : List PageRange → List PageRange → Type 0
Parts [] cs = Unit
Parts (x ∷ xs) [] = ⊥
Parts (x ∷ xs) (c ∷ cs) = (IsPart x c × Parts xs cs) ⊎ Parts (x ∷ xs) cs

Parts-skip : (c : PageRange) (xs cs : List PageRange) → Parts xs cs → Parts xs (c ∷ cs)
unfolding Parts
Parts-skip c [] cs h = tt
Parts-skip c (x ∷ xs) cs h = inr h

Parts-append :
    (xs ys cs ds : List PageRange) → Parts xs cs → Parts ys ds → Parts (xs ++ ys) (cs ++ ds)
unfolding Parts
Parts-append [] ys [] ds h k = k
Parts-append [] ys (c ∷ cs) ds h k = Parts-skip c ys (cs ++ ds) (Parts-append [] ys cs ds tt k)
Parts-append (x ∷ xs) ys [] ds h k = absurd h
Parts-append (x ∷ xs) ys (c ∷ cs) ds (inl (p, h)) k = inl (p, Parts-append xs ys cs ds h k)
Parts-append (x ∷ xs) ys (c ∷ cs) ds (inr h) k = inr (Parts-append (x ∷ xs) ys cs ds h k)

Parts-nil : (xs : List PageRange) (cs ds : List PageRange) → Parts xs cs → Parts xs (cs ++ ds)
unfolding Parts
Parts-nil [] cs ds h = tt
Parts-nil (x ∷ xs) [] ds h = absurd h
Parts-nil (x ∷ xs) (c ∷ cs) ds (inl (p, h)) = inl (p, Parts-nil xs cs ds h)
Parts-nil (x ∷ xs) (c ∷ cs) ds (inr h) = inr (Parts-nil (x ∷ xs) cs ds h)

before_chosen-Parts :
    (c : PageRange) (cs : List PageRange) (r : Chosen)
    → Parts r.0 cs
    → Parts (before_chosen c r).0 (c ∷ cs)
unfolding Parts
before_chosen-Parts c cs (xs, n) h = inl ((refl, omega arith, refl), h)

choose-Parts : (n : ℕ) (cs : List PageRange) → 1 ≤ n → Parts (choose n cs).0 cs
unfolding choose Parts
choose-Parts n [] h = tt
choose-Parts n (c ∷ cs) h = elim (Bool-cases (can_write c)) [
  | inr y ↦ rw y (Parts-skip c (choose n cs).0 cs (choose-Parts n cs h))
  | inl y ↦ elim (Bool-cases (leb n (c.end - c.start))) [
    | inl z ↦ rw (y, z) (inl ((refl, ground (arith, h, z), refl), tt))
    | inr z ↦
        rw (y, z)
          (before_chosen-Parts c cs (choose (n - (c.end - c.start)) cs)
            (choose-Parts (n - (c.end - c.start)) cs (ground (arith, z))))
  ]
]

-- Pages are still wanted unless the last one is chosen.
abbrev IsWanted : Chosen → Type 0
IsWanted (xs, none) = Unit
IsWanted (xs, some m) = 1 ≤ m

before_chosen-IsWanted : (c : PageRange) (r : Chosen) → IsWanted r → IsWanted (before_chosen c r)
before_chosen-IsWanted c (xs, none) h = h
before_chosen-IsWanted c (xs, some m) h = h

choose-IsWanted : (n : ℕ) (cs : List PageRange) → 1 ≤ n → IsWanted (choose n cs)
unfolding choose
choose-IsWanted n [] h = h
choose-IsWanted n (c ∷ cs) h = elim (Bool-cases (can_write c)) [
  | inr y ↦ rw y (choose-IsWanted n cs h)
  | inl y ↦ elim (Bool-cases (leb n (c.end - c.start))) [
    | inl z ↦ rw (y, z) tt
    | inr z ↦
        rw (y, z)
          (before_chosen-IsWanted c (choose (n - (c.end - c.start)) cs)
            (choose-IsWanted (n - (c.end - c.start)) cs (ground (arith, z))))
  ]
]

-- The nodes of the files, one table after the other.
unfoldable pub nodes : List File → List PageRange
nodes [] = []
nodes ((id, cs) ∷ fs) = cs ++ nodes fs

after_file-Parts :
    (r : Chosen) (next : ℕ → List PageRange) (cs ds : List PageRange)
    → Parts r.0 cs
    → IsWanted r
    → ((m : ℕ) → 1 ≤ m → Parts (next m) ds)
    → Parts (after_file r next) (cs ++ ds)
after_file-Parts (xs, none) next cs ds h w k = Parts-nil xs cs ds h
after_file-Parts (xs, some m) next cs ds h w k = Parts-append xs (next m) cs ds h (k m w)

pub choose_all-Parts : (n : ℕ) (fs : List File) → 1 ≤ n → Parts (choose_all n fs) (nodes fs)
unfolding choose_all nodes Parts
choose_all-Parts n [] h = tt
choose_all-Parts n ((id, cs) ∷ fs) h =
    after_file-Parts (choose n cs) (λ m. choose_all m fs) cs (nodes fs) (choose-Parts n cs h)
      (choose-IsWanted n cs h) (λ m. choose_all-Parts m fs)
