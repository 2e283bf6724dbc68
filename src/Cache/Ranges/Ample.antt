-- ===== src/Cache/Ranges/Ample.antt =====
-- The walk over the page table (omnetpp/dserver/diskcache/DiskCache.cc) where enough pages are free, so that none are
-- reclaimed.
use pfssim.Base.{
  ℕ, ◌+◌, ◌-◌, ◌≤◌, ◌<◌, ◌≡◌, inl, inr, true, false, not, ◌&&◌, List, [], ◌∷◌, ltb, leb, ◌==◌,
  Bool-cases, arith,
}
use pfssim.Cache.{
  Access, PageRange, Counts, Round, Status, stop, on, finished, refused, short, pass, hit, gap,
  at_node, before_node, after_round, round, walk, may_grow, added,
}
use pfssim.Cache.Ranges.{IsSorted, cached, Sound, walk_lem, written_back-free_pages}

abbrev pub NotShort : Status → Type 0
NotShort short = ⊥
NotShort finished = Unit
NotShort refused = Unit

-- Where the walk may add pages, the free pages are enough for the rest of the request.
abbrev pub IsAmple : Access → PageRange → Counts → Type 0
IsAmple m a k = may_grow m ≡ true → a.end - a.start ≤ k.free_pages

Ample : Access → Round → Type 0
Ample m (stop s front k) = NotShort s
Ample m (on front a k) = IsAmple m a k

pass-Ample :
    (m : Access) (front : List PageRange) (a : PageRange) (k : Counts)
    → IsAmple m a k
    → Ample m (pass m front a k)
unfolding Ample pass
pass-Ample m front a k h = elim (Bool-cases (a.start == a.end)) [
  | inl z ↦ rw z tt
  | inr z ↦ elim (Bool-cases (m.preop && not m.disk && m.read)) [
    | inl y ↦ rw (z, y) tt
    | inr y ↦ rw (z, y) h
  ]
]

hit-Ample :
    (m : Access) (a c : PageRange) (k : Counts)
    → a.start < c.end
    → IsAmple m a k
    → Ample m (hit m a c k)
unfolding Ample hit
hit-Ample m a c k l h = elim (Bool-cases (m.preop && m.disk && m.read)) [
  | inl x ↦ rw x tt
  | inr x ↦ elim (Bool-cases (ltb a.end c.end)) [
    | inl y ↦ rw (x, y) tt
    | inr y ↦
        rw (x, y)
          (pass-Ample m _ (record a { start = c.end }) _
            (λ g. omega (arith, h g, written_back-free_pages m (c.end - a.start) k, l)))
  ]
]

at_node-Ample :
    (m : Access) (a c : PageRange) (k : Counts) → IsAmple m a k → Ample m (at_node m a c k)
unfolding at_node
at_node-Ample m a c k h = elim (Bool-cases (ltb a.start c.end)) [
  | inl y ↦ rw y (hit-Ample m a c k (ground (arith, y)) h)
  | inr y ↦ rw y (pass-Ample m (c ∷ []) a k h)
]

before_node-Ample : (m : Access) (t : PageRange) (r : Round) → Ample m r → Ample m (before_node t r)
unfolding Ample before_node
before_node-Ample m t (stop s front k) h = h
before_node-Ample m t (on front a k) h = h

gap-Ample :
    (m : Access) (a c : PageRange) (k : Counts)
    → a.start < c.start
    → IsAmple m a k
    → Ample m (gap m a c k)
unfolding Ample gap
gap-Ample m a c k l h = elim (Bool-cases (may_grow m)) [
  | inr x ↦ rw x tt
  | inl x ↦ elim (Bool-cases (leb a.end c.start)) [
    | inl y ↦
        let z : ltb k.free_pages (a.end - a.start) ≡ false = ground (arith, h x) in rw (x, y, z) tt
    | inr y ↦
        let z : ltb k.free_pages (c.start - a.start) ≡ false = ground (arith, h x, y) in
        rw (x, y, z)
          (before_node-Ample m (added m a c.start) _
            (at_node-Ample m (record a { start = c.start }) c _ (λ g. omega (arith, h x, l))))
  ]
]

round-Ample : (m : Access) (a c : PageRange) (k : Counts) → IsAmple m a k → Ample m (round m a c k)
unfolding round
round-Ample m a c k h = elim (Bool-cases (ltb a.start c.start)) [
  | inl y ↦ rw y (gap-Ample m a c k (ground (arith, y)) h)
  | inr y ↦ rw y (at_node-Ample m a c k h)
]

after_round-NotShort :
    (m : Access) (cs : List PageRange) (r : Round)
    → Ample m r
    → ((a : PageRange) (k : Counts) → IsAmple m a k → NotShort (walk m a cs k).status)
    → NotShort (after_round cs (λ a k. walk m a cs k) r).status
unfolding Ample after_round
after_round-NotShort m cs (stop s front k) h ih = h
after_round-NotShort m cs (on front a k) h ih = ih a k h

walk-NotShort :
    (m : Access) (a : PageRange) (cs : List PageRange) (k : Counts)
    → IsAmple m a k
    → NotShort (walk m a cs k).status
unfolding walk
walk-NotShort m a [] k h = elim (Bool-cases (may_grow m)) [
  | inr x ↦ rw x tt
  | inl x ↦ let z : ltb k.free_pages (a.end - a.start) ≡ false = ground (arith, h x) in rw (x, z) tt
]
walk-NotShort m a (c ∷ cs) k h =
    after_round-NotShort m cs (round m a c k) (round-Ample m a c k h)
      (λ a' k' h'. walk-NotShort m a' cs k' h')

-- For a request that is not empty, and that the free pages are enough for where the walk may add pages, the walk finishes or
-- refuses the access with an error, and does not run short of pages; either way the list stays in order,
-- without overlaps and without empty ranges, and the cached and the free pages are as many as before.
pub walk-Sound :
    (m : Access) (b : ℕ) (a : PageRange) (cs : List PageRange) (k : Counts)
    → IsSorted b cs
    → b ≤ a.start
    → a.start < a.end
    → IsAmple m a k
    → Sound b (cached cs + k.free_pages) (walk m a cs k) × NotShort (walk m a cs k).status
walk-Sound m b a cs k o p s h = (walk_lem m b a cs k o p s, walk-NotShort m a cs k h)
