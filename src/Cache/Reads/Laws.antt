-- ===== src/Cache/Reads/Laws.antt =====
-- The accesses that `readCache` (omnetpp/dserver/diskcache/DiskCache.cc) schedules.
use pfssim.Base.{
  ℕ, ◌+◌, ◌-◌, ◌≤◌, ◌<◌, ◌≡◌, refl, subst, inl, inr, Bool, true, false, not, Option, none, some,
  List, [], ◌∷◌, ltb, leb, ◌==◌, Bool-cases, arith,
}
use pfssim.Cache.{PageRange, Flags, Counts, finished, walk, page_range}
use pfssim.Cache.Ranges.Ends.{read_disk, Absent-finishes}
use pfssim.Cache.Ranges.{IsSorted}
use pfssim.Cache.Ranges.Marks.{flags_at, flags_at_before}
use pfssim.Cache.Reads.{
  Reading, waits, from_disk, from_cache, all_done, get_access_size, disk_read, is_original,
  read_node, read_cache,
}

-- The page `p` is cached and not locked.
abbrev pub is_free : Option Flags → Bool
is_free none = false
is_free (some f) = not f.locked

-- The page `p` is cached and locked.
abbrev pub is_held : Option Flags → Bool
is_held none = false
is_held (some f) = f.locked

-- The page `p` is only read ahead: it is in the list that begins at `r`.
abbrev pub is_ahead : Option ℕ → ℕ → Bool
is_ahead none p = false
is_ahead (some r) p = leb r p

-- A page that `readCache` passes over.
abbrev pub Skipped : Option ℕ → List PageRange → ℕ → Type 0
Skipped ra cs p = (is_ahead ra p ≡ true) × (is_free (flags_at p cs) ≡ true)

-- What the access is, for a page `p`: from the disk come pages that are not cached, `batch` at most, from
-- the cache pages that are cached and not locked, the first of them not only read ahead. Each page before
-- these, or each page where all is done, is skipped. The read waits for a page that is locked.
pub Fits : ℕ → Option ℕ → ℕ → ℕ → List PageRange → ℕ → Reading → Type 0
Fits batch ra s e cs p waits = (x : ℕ) × (s ≤ x) × (x < e) × (is_held (flags_at x cs) ≡ true)
Fits batch ra s e cs p (from_disk x y) =
    (s ≤ x)
    × (x < y)
    × (y ≤ e)
    × (y ≤ x + batch)
    × (x ≤ p → p < y → flags_at p cs ≡ none)
    × (s ≤ p → p < x → Skipped ra cs p)
Fits batch ra s e cs p (from_cache x y) =
    (s ≤ x)
    × (x < y)
    × (y ≤ e)
    × (x ≤ p → p < y → is_free (flags_at p cs) ≡ true)
    × (is_ahead ra x ≡ false)
    × (s ≤ p → p < x → Skipped ra cs p)
Fits batch ra s e cs p all_done = s ≤ p → p < e → Skipped ra cs p

disk_read-Fits :
    (batch : ℕ) (ra : Option ℕ) (s e e' : ℕ) (cs : List PageRange) (p : ℕ)
    → 1 ≤ batch
    → s < e'
    → e' ≤ e
    → (s ≤ p → p < e' → flags_at p cs ≡ none)
    → Fits batch ra s e cs p (disk_read batch s e')
unfolding Fits get_access_size
disk_read-Fits batch ra s e e' cs p b l h g = elim (Bool-cases (ltb batch (e' - s))) [
  | inl y ↦ rw y (
    omega arith,
    omega arith,
    ground arith,
    omega arith,
    λ i j. g i (ground arith),
    λ i j. absurd (omega arith),
  )
  | inr y ↦ rw y (
    omega arith,
    omega arith,
    omega arith,
    ground arith,
    λ i j. g i (omega arith),
    λ i j. absurd (omega arith),
  )
]

past :
    (p : ℕ) (c : PageRange) (cs : List PageRange) → c.end ≤ p → flags_at p (c ∷ cs) ≡ flags_at p cs
unfolding flags_at
past p c cs h = ground arith

past-Skipped :
    (ra : Option ℕ) (p : ℕ) (c : PageRange) (cs : List PageRange)
    → c.end ≤ p
    → Skipped ra cs p
    → Skipped ra (c ∷ cs) p
past-Skipped ra p c cs h k = (k.0, rw (past p c cs h) k.1)

-- The node `c` is passed: the pages up to `s'` are skipped.
pass-Skipped :
    (ra : Option ℕ) (s s' x : ℕ) (c : PageRange) (cs : List PageRange) (p : ℕ)
    → c.end ≤ s'
    → (s ≤ p → p < s' → Skipped ra (c ∷ cs) p)
    → (s' ≤ p → p < x → Skipped ra cs p)
    → s ≤ p
    → p < x
    → Skipped ra (c ∷ cs) p
pass-Skipped ra s s' x c cs p h f g i j = elim (Bool-cases (ltb p s')) [
  | inl y ↦ f i (ground arith)
  | inr y ↦ past-Skipped ra p c cs (ground arith) (g (ground arith) j)
]

pass-Fits :
    (batch : ℕ) (ra : Option ℕ) (s s' e : ℕ) (c : PageRange) (cs : List PageRange) (p : ℕ)
    (r : Reading)
    → s ≤ s'
    → c.end ≤ s'
    → (s ≤ p → p < s' → Skipped ra (c ∷ cs) p)
    → Fits batch ra s' e cs p r
    → Fits batch ra s e (c ∷ cs) p r
unfolding Fits
pass-Fits batch ra s s' e c cs p waits l h f (x, a, b, k) =
    (x, omega arith, b, rw (past x c cs (omega arith)) k)
pass-Fits batch ra s s' e c cs p (from_disk x y) l h f g = (
  omega (arith, g.0),
  g.1,
  g.2,
  g.3,
  λ i j. rw (past p c cs (omega (arith, g.0))) (g.4 i j),
  pass-Skipped ra s s' x c cs p h f g.5,
)
pass-Fits batch ra s s' e c cs p (from_cache x y) l h f g = (
  omega (arith, g.0),
  g.1,
  g.2,
  λ i j. rw (past p c cs (omega (arith, g.0))) (g.3 i j),
  g.4,
  pass-Skipped ra s s' x c cs p h f g.5,
)
pass-Fits batch ra s s' e c cs p all_done l h f g = pass-Skipped ra s s' e c cs p h f g

-- A page of a locked node that the request has.
held_node :
    (s e : ℕ) (c : PageRange) (cs : List PageRange)
    → c.flags.locked ≡ true
    → c.start < c.end
    → s < e
    → s < c.end
    → c.start < e
    → (x : ℕ) × (s ≤ x) × (x < e) × (is_held (flags_at x (c ∷ cs)) ≡ true)
unfolding flags_at
held_node s e c cs h o l y z = elim (Bool-cases (ltb s c.start)) [
  | inl v ↦ (c.start, ground arith, z, ground arith)
  | inr v ↦ (s, omega arith, l, ground arith)
]

original : (ra : Option ℕ) (s : ℕ) → is_original ra s ≡ true → is_ahead ra s ≡ false
original none s h = refl
original (some r) s h = ground arith

ahead : (ra : Option ℕ) (s p : ℕ) → is_original ra s ≡ false → s ≤ p → is_ahead ra p ≡ true
ahead none s p h l = cc
ahead (some r) s p h l = ground arith

free_node :
    (p s : ℕ) (c : PageRange) (cs : List PageRange)
    → c.flags.locked ≡ false
    → c.start ≤ s
    → s ≤ p
    → p < c.end
    → is_free (flags_at p (c ∷ cs)) ≡ true
unfolding flags_at
free_node p s c cs h l i j = ground arith

read_node-Fits :
    (batch : ℕ) (ra : Option ℕ) (s e b : ℕ) (c : PageRange) (cs : List PageRange) (p : ℕ) (k : Bool)
    (rest : Reading)
    → 1 ≤ batch
    → IsSorted b (c ∷ cs)
    → s < e
    → s < c.end
    → c.start < e
    → c.flags.locked ≡ k
    → (c.end < e → Fits batch ra c.end e cs p rest)
    → Fits batch ra s e (c ∷ cs) p (read_node batch ra s e c k rest)
unfolding read_node
read_node-Fits batch ra s e b c cs p true rest t o l y z u g =
    unfold Fits in held_node s e c cs u (ground (arith, o.0, o.1)) l y z
read_node-Fits batch ra s e b c cs p false rest t o l y z u g = elim (Bool-cases (ltb s c.start)) [
  | inl v ↦ rw v (
      disk_read-Fits batch ra s e c.start (c ∷ cs) p t (ground arith) (omega arith)
        (λ i j. flags_at_before p c.start (c ∷ cs) (omega arith, o.1, o.2) j))
  | inr v ↦ elim (Bool-cases (is_original ra s)) [
    | inl w ↦
        rw (v, w)
          (unfold Fits get_access_size in
            (
              omega arith,
              ground arith,
              ground arith,
              λ i j. free_node p s c cs u (ground arith) i (ground arith),
              original ra s w,
              λ i j. absurd (omega arith),
            ))
    | inr w ↦ elim (Bool-cases (ltb c.end e)) [
      | inl q ↦ elim (Bool-cases (c.end == e)) [
        | inl r ↦ absurd (ground arith)
        | inr r ↦
            rw (v, w, q, r)
              (pass-Fits batch ra s c.end e c cs p rest (omega arith) (omega arith)
                (λ i j. (ahead ra s p w i, free_node p s c cs u (ground arith) i j))
                (g (ground arith)))
      ]
      | inr q ↦ elim (Bool-cases (e == e)) [
        | inr r ↦ absurd (ground arith)
        | inl r ↦
            rw (v, w, q, r)
              (unfold Fits in
                (λ i j. (ahead ra s p w i, free_node p s c cs u (ground arith) i (ground arith))))
      ]
    ]
  ]
]

-- For a table in order, a request that is not empty and a batch that is not 0: from the disk `readCache`
-- reads only pages that are not cached, at most the batch, and from the cache only pages that are cached
-- and not locked, the first of which is not only read ahead. The pages of the request before these, and all
-- its pages where it ends, are cached, not locked and only read ahead. It waits only where a page of
-- the request is locked.
pub read_cache-Fits :
    (batch : ℕ) (ra : Option ℕ) (s e b : ℕ) (cs : List PageRange) (p : ℕ)
    → 1 ≤ batch
    → IsSorted b cs
    → s < e
    → Fits batch ra s e cs p (read_cache batch ra s e cs)
unfolding read_cache
read_cache-Fits batch ra s e b [] p t o l =
    disk_read-Fits batch ra s e e [] p t l (omega arith) (λ i j. unfold flags_at in refl)
read_cache-Fits batch ra s e b (c ∷ cs) p t o l = elim (Bool-cases (s == e)) [
  | inl x ↦ absurd (ground arith)
  | inr x ↦ elim (Bool-cases (leb c.end s)) [
    | inl y ↦
        rw (x, y)
          (pass-Fits batch ra s s e c cs p _ (omega arith) (ground arith)
            (λ i j. absurd (omega arith)) (read_cache-Fits batch ra s e c.end cs p t o.2 l))
    | inr y ↦ elim (Bool-cases (leb e c.start)) [
      | inl z ↦
          rw (x, y, z)
            (disk_read-Fits batch ra s e e (c ∷ cs) p t l (omega arith)
              (λ i j. flags_at_before p c.start (c ∷ cs) (omega arith, o.1, o.2) (ground arith)))
      | inr z ↦
          rw (x, y, z)
            (read_node-Fits batch ra s e b c cs p c.flags.locked _ t o l (ground arith)
              (ground arith) refl
              (λ q.
                let v : ltb c.end e ≡ true = ground arith in
                rw v (read_cache-Fits batch ra c.end e c.end cs p t o.2 q)))
    ]
  ]
]

from_disk-absent :
    (batch : ℕ) (ra : Option ℕ) (s e b : ℕ) (cs : List PageRange) (x y p : ℕ)
    → 1 ≤ batch
    → IsSorted b cs
    → s < e
    → read_cache batch ra s e cs ≡ from_disk x y
    → (x < y) × (x ≤ p → p < y → flags_at p cs ≡ none)
unfolding Fits
from_disk-absent batch ra s e b cs x y p t o l h =
    let f : Fits batch ra s e cs p (from_disk x y) =
      subst (Fits batch ra s e cs p) h (read_cache-Fits batch ra s e b cs p t o l) in
    (f.1, f.4)

-- The disk access that `readCache` schedules never meets a page that is cached, which is an error of
-- `walkCache_update`: the walk before it ends, where there are as many free pages as it has pages.
pub from_disk_finishes :
    (batch : ℕ) (ra : Option ℕ) (s e b : ℕ) (cs : List PageRange) (x y : ℕ) (k : Counts)
    → 1 ≤ batch
    → IsSorted b cs
    → s < e
    → read_cache batch ra s e cs ≡ from_disk x y
    → y - x ≤ k.free_pages
    → (walk read_disk (page_range x y false) cs k).status ≡ finished
from_disk_finishes batch ra s e b cs x y k t o l h free =
    Absent-finishes b (page_range x y false) cs k o
      (from_disk-absent batch ra s e b cs x y 0 t o l h).0 free
      (λ p. (from_disk-absent batch ra s e b cs x y p t o l h).1)
