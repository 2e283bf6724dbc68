-- ===== src/Cache/Writeout/Laws.antt =====
-- What `setWriteout` (omnetpp/dserver/diskcache/DiskCache.cc) chooses.
use pfssim.Base.{
  ℕ, ◌+◌, ◌-◌, ◌≤◌, ◌<◌, ◌≡◌, refl, sym, ap, ◌∙◌, subst, inl, inr, Bool, true, false, ◌||◌, none,
  some, List, [], ◌∷◌, ◌++◌, min, leb, ◌==◌, if◌then◌else◌, Bool-cases, All, arith,
}
use pfssim.Cache.{PageRange}
use pfssim.Cache.Ranges.{cached}
use mathlib.Core.List.{append_assoc, append-nil}
use pfssim.Cache.Writeout.Parts.{Parts, nodes, choose_all-Parts}
use pfssim.Cache.Writeout.{
  can_write, Chosen, File, before_chosen, choose, choose_all, from_file, set_writeout, after_file,
}

-- The pages that can be written back.
unfoldable pub writable : List PageRange → ℕ
writable [] = 0
writable (c ∷ cs) = (if can_write c then c.end - c.start else 0) + writable cs

unfoldable pub writable_all : List File → ℕ
writable_all [] = 0
writable_all ((id, cs) ∷ fs) = writable cs + writable_all fs

abbrev pub AllWritable : List PageRange → Type 0
AllWritable = All (λ c. can_write c ≡ true)

-- `total` pages can be written back, and `n` are wanted.
Chooses : ℕ → ℕ → Chosen → Type 0
Chooses n total (xs, none) = AllWritable xs × (cached xs ≡ n) × (n ≤ total)
Chooses n total (xs, some m) = AllWritable xs × (cached xs ≡ total) × (total + m ≡ n) × (1 ≤ m)

cons-Chooses :
    (c : PageRange) (n total : ℕ) (r : Chosen)
    → can_write c ≡ true
    → c.end - c.start < n
    → Chooses (n - (c.end - c.start)) total r
    → Chooses n ((c.end - c.start) + total) (before_chosen c r)
unfolding Chooses cached
cons-Chooses c n total (xs, none) y l h = ((y, h.0), omega (arith, h.1), omega (arith, h.2))
cons-Chooses c n total (xs, some m) y l h = ((y, h.0), omega (arith, h.1), omega (arith, h.2), h.3)

choose-Chooses : (n : ℕ) (cs : List PageRange) → 1 ≤ n → Chooses n (writable cs) (choose n cs)
unfolding Chooses choose writable cached
choose-Chooses n [] h = (tt, refl, omega arith, h)
choose-Chooses n (c ∷ cs) h = elim (Bool-cases (can_write c)) [
  | inr y ↦ rw y (
      subst (λ t. Chooses n t (choose n cs))
        (let e : writable cs ≡ 0 + writable cs = omega arith in e) (choose-Chooses n cs h))
  | inl y ↦ elim (Bool-cases (leb n (c.end - c.start))) [
    | inl z ↦ rw (y, z) ((y, tt), omega arith, ground arith)
    | inr z ↦
        rw (y, z)
          (cons-Chooses c n (writable cs) (choose (n - (c.end - c.start)) cs) y (ground arith)
            (choose-Chooses (n - (c.end - c.start)) cs (ground arith)))
  ]
]

AllWritable-append :
    (xs ys : List PageRange) → AllWritable xs → AllWritable ys → AllWritable (xs ++ ys)
AllWritable-append [] ys h k = k
AllWritable-append (x ∷ xs) ys h k = (h.0, AllWritable-append xs ys h.1 k)

cached-append : (xs ys : List PageRange) → cached (xs ++ ys) ≡ cached xs + cached ys
unfolding cached
cached-append [] ys = omega arith
cached-append (x ∷ xs) ys = omega (arith, cached-append xs ys)

-- Of `total` pages, `n` are chosen, or all if they are fewer.
abbrev pub ChosenWell : ℕ → ℕ → List PageRange → Type 0
ChosenWell n total xs = AllWritable xs × (cached xs ≡ min n total)

after_file-well :
    (n total rest : ℕ) (r : Chosen) (next : ℕ → List PageRange)
    → Chooses n total r
    → ((m : ℕ) → 1 ≤ m → ChosenWell m rest (next m))
    → ChosenWell n (total + rest) (after_file r next)
unfolding Chooses
after_file-well n total rest (xs, none) next h ih = (h.0, omega (arith, h.1, h.2))
after_file-well n total rest (xs, some m) next h ih =
    let (a, e) = ih m (h.3) in
    (AllWritable-append xs (next m) h.0 a, omega (arith, cached-append xs (next m), h.1, h.2, e))

choose_all-well :
    (n : ℕ) (fs : List File) → 1 ≤ n → ChosenWell n (writable_all fs) (choose_all n fs)
unfolding choose_all writable_all cached
choose_all-well n [] h = (tt, omega arith)
choose_all-well n ((id, cs) ∷ fs) h =
    after_file-well n (writable cs) (writable_all fs) (choose n cs) (λ m. choose_all m fs)
      (choose-Chooses n cs h) (λ m l. choose_all-well m fs l)

writable_all-append :
    (fs gs : List File) → writable_all (fs ++ gs) ≡ writable_all fs + writable_all gs
unfolding writable_all
writable_all-append [] gs = omega arith
writable_all-append ((id, cs) ∷ fs) gs = omega (arith, writable_all-append fs gs)

abbrev pub has_file : ℕ → List File → Bool
has_file fid [] = false
has_file fid ((id, cs) ∷ fs) = id == fid || has_file fid fs

-- The file is the first one.
abbrev pub StartsWith : ℕ → List File → Type 0
StartsWith fid [] = ⊥
StartsWith fid ((id, cs) ∷ fs) = (id == fid) ≡ true

from_file-writable :
    (fid : ℕ) (before fs : List File)
    → has_file fid fs ≡ true
    → (us : List File) × (vs : List File) × (bs : List File) × (us ++ vs ≡ fs)
      × (from_file fid before fs ≡ some (vs ++ bs))
      × (bs ≡ before ++ us)
      × StartsWith fid vs
      × (writable_all (vs ++ bs) ≡ writable_all before + writable_all fs)
unfolding from_file writable_all
from_file-writable fid before [] h = cc
from_file-writable fid before ((id, cs) ∷ fs) h = elim (Bool-cases (id == fid)) [
  | inl y ↦ rw y (
    [],
    (id, cs) ∷ fs,
    before,
    refl,
    refl,
    sym (append-nil before),
    y,
    omega (arith, writable_all-append fs before),
  )
  | inr y ↦
      let (us, vs, bs, a, e, b, st, w) =
        from_file-writable fid (before ++ (id, cs) ∷ []) fs (ground arith) in
      rw y (
        (id, cs) ∷ us,
        vs,
        bs,
        ap (λ (x : List File). (id, cs) ∷ x) a,
        e,
        b ∙ append_assoc before ((id, cs) ∷ []) us,
        st,
        omega (arith, w, writable_all-append before ((id, cs) ∷ [])),
      )
]

-- For a file of `fileIDs` and a number that is not 0, `setWriteout` returns. It goes through the tables of the
-- files from that file on, then of those before it. What it chooses are parts of different nodes of these, in their order, each
-- from the first page of its node on and with the node's flags; the pages are dirty, not locked, not in use and not written
-- back yet; and they are as many as are wanted, or all of these pages of all files if they are fewer.
pub set_writeout-chooses :
    (fid n : ℕ) (files : List File)
    → has_file fid files ≡ true
    → 1 ≤ n
    → (us : List File) × (vs : List File) × (xs : List PageRange) × (us ++ vs ≡ files)
      × StartsWith fid vs
      × (set_writeout fid n files ≡ some xs)
      × Parts xs (nodes (vs ++ us))
      × ChosenWell n (writable_all files) xs
unfolding set_writeout writable_all
set_writeout-chooses fid n files h l =
    let (us, vs, bs, f, e, b, st, w) = from_file-writable fid [] files h in
    let (a, c) = choose_all-well n (vs ++ bs) l in
    (
      us,
      vs,
      choose_all n (vs ++ bs),
      f,
      st,
      rw e refl,
      subst (λ (t : List File). Parts (choose_all n (vs ++ bs)) (nodes (vs ++ t))) b
          (choose_all-Parts n (vs ++ bs) l),
      (a, omega (arith, c, w)),
    )
