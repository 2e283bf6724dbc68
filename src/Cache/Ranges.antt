-- ===== src/Cache/Ranges.antt =====
-- The walk over the page table (omnetpp/dserver/diskcache/DiskCache.cc) keeps the ranges in order and
-- apart, and the count of the free pages right.
pub mod Ample
pub mod Ends
pub mod Dirty
pub mod Marks
pub mod Missing
pub mod Writes
use pfssim.Base.{
  ℕ, ◌+◌, ◌-◌, ◌≤◌, ◌<◌, ◌≡◌, refl, inl, inr, Bool, true, false, not, ◌&&◌, ◌||◌, List, [], ◌∷◌,
  ◌++◌, ltb, leb, ◌==◌, if◌then◌else◌, Bool-cases, arith,
}
use pfssim.Cache.{
  Access, PageRange, Counts, Round, Walked, stop, on, finished, refused, short, pass, hit, gap,
  at_node, before_node, after_round, round, walk, may_grow, grown, added, kept_before, written_back,
}

-- The ranges hold pages, and each begins at `b` at the least and where the one before it ends.
abbrev pub IsSorted : ℕ → List PageRange → Type 0
IsSorted b [] = Unit
IsSorted b (c ∷ cs) = (b ≤ c.start) × (c.start < c.end) × IsSorted c.end cs

-- The number of the cached pages.
unfoldable pub cached : List PageRange → ℕ
cached [] = 0
cached (c ∷ cs) = (c.end - c.start) + cached cs

-- The nodes of a round are in order up to the end of `c`, and the number of the free and the cached
-- pages stays `n`.
abbrev Keeps : ℕ → ℕ → PageRange → List PageRange → Counts → Type 0
Keeps b n c front k =
    ((ws : List PageRange) → IsSorted c.end ws → IsSorted b (front ++ ws))
    × ((ws : List PageRange) → cached (front ++ ws) + k.free_pages ≡ n + cached ws)

Fits : ℕ → ℕ → PageRange → Round → Type 0
Fits b n c (stop s front k) = Keeps b n c front k
Fits b n c (on front a k) = Keeps b n c front k × (c.end ≤ a.start) × (a.start < a.end)

IsSorted-weaken : (a b : ℕ) (ws : List PageRange) → a ≤ b → IsSorted b ws → IsSorted a ws
IsSorted-weaken a b [] l h = tt
IsSorted-weaken a b (w ∷ ws) l h = (omega arith, h.1, h.2)

written_back-free_pages :
    (m : Access) (n : ℕ) (k : Counts) → (written_back m n k).free_pages ≡ k.free_pages
written_back-free_pages m n k = ground arith

pass-Fits :
    (m : Access) (b n : ℕ) (c : PageRange) (front : List PageRange) (a : PageRange) (k : Counts)
    → Keeps b n c front k
    → c.end ≤ a.start
    → a.start ≤ a.end
    → Fits b n c (pass m front a k)
unfolding Fits pass
pass-Fits m b n c front a k h l e = elim (Bool-cases (a.start == a.end)) [
  | inl z ↦ rw z h
  | inr z ↦ elim (Bool-cases (m.preop && not m.disk && m.read)) [
    | inl y ↦ rw (z, y) h
    | inr y ↦ rw (z, y) (h, l, ground arith)
  ]
]

-- A node begins before the request: what lies before it is kept.
kept_before-Keeps :
    (b n total : ℕ) (c a : PageRange) (rest : List PageRange) (k : Counts)
    → b ≤ c.start
    → c.start ≤ a.start
    → (a.start - c.start) + n ≡ total
    → Keeps a.start n c rest k
    → Keeps b total c (kept_before a c rest) k
unfolding cached
kept_before-Keeps b n total c a rest k p q t h = elim (Bool-cases (a.start == c.start)) [
  | inl e ↦ rw e (
    λ ws g. IsSorted-weaken b a.start (rest ++ ws) (omega arith) (h.0 ws g),
    λ ws. ground (arith, h.1 ws),
  )
  | inr e ↦ rw e (λ ws g. (p, ground arith, h.0 ws g), λ ws. omega (arith, h.1 ws))
]

hit-Fits :
    (m : Access) (b : ℕ) (c a : PageRange) (k : Counts)
    → b ≤ c.start
    → c.start ≤ a.start
    → a.start < c.end
    → a.start < a.end
    → Fits b (c.end - c.start + k.free_pages) c (hit m a c k)
unfolding Fits hit cached
hit-Fits m b c a k p q r s = elim (Bool-cases (m.preop && m.disk && m.read)) [
  | inl x ↦ rw x ((λ ws g. (p, omega arith, g)), λ ws. omega arith)
  | inr x ↦ elim (Bool-cases (ltb a.end c.end)) [
    | inl y ↦
        rw (x, y)
          (kept_before-Keeps b (c.end - a.start + k.free_pages) (c.end - c.start + k.free_pages) c a
            _ (written_back m (a.end - a.start) k) p q (omega arith)
            (
              λ ws g. (omega arith, s, (omega arith, ground arith, g)),
              λ ws. ground (arith, written_back-free_pages m (a.end - a.start) k),
            ))
    | inr y ↦
        rw (x, y)
          (pass-Fits m b (c.end - c.start + k.free_pages) c _ (record a { start = c.end }) _
            (kept_before-Keeps b (c.end - a.start + k.free_pages) (c.end - c.start + k.free_pages) c
              a _ (written_back m (c.end - a.start) k) p q (omega arith)
              (
                λ ws g. (omega arith, r, g),
                λ ws. omega (arith, written_back-free_pages m (c.end - a.start) k),
              ))
            (omega arith) (ground arith))
  ]
]

at_node-Fits :
    (m : Access) (b : ℕ) (c a : PageRange) (k : Counts)
    → b ≤ c.start
    → c.start < c.end
    → c.start ≤ a.start
    → a.start < a.end
    → Fits b (c.end - c.start + k.free_pages) c (at_node m a c k)
unfolding at_node cached
at_node-Fits m b c a k p q r s = elim (Bool-cases (ltb a.start c.end)) [
  | inl y ↦ rw y (hit-Fits m b c a k p r (ground arith) s)
  | inr y ↦ rw y (
      pass-Fits m b (c.end - c.start + k.free_pages) c (c ∷ []) a k
        (λ ws g. (p, q, g), λ ws. omega arith) (ground arith) (omega arith))
]

before_node-Fits :
    (b n total : ℕ) (c t : PageRange) (r : Round)
    → b ≤ t.start
    → t.start < t.end
    → (t.end - t.start) + n ≡ total
    → Fits t.end n c r
    → Fits b total c (before_node t r)
unfolding Fits before_node cached
before_node-Fits b n total c t (stop s front k) p q e h =
    (λ ws g. (p, q, h.0 ws g), λ ws. omega (arith, h.1 ws))
before_node-Fits b n total c t (on front a k) p q e h =
    ((λ ws g. (p, q, h.0.0 ws g), λ ws. omega (arith, h.0.1 ws)), h.1, h.2)

gap-Fits :
    (m : Access) (b : ℕ) (c a : PageRange) (k : Counts)
    → b ≤ a.start
    → c.start < c.end
    → a.start < c.start
    → a.start < a.end
    → Fits b (c.end - c.start + k.free_pages) c (gap m a c k)
unfolding gap Fits cached
gap-Fits m b c a k p q r s = elim (Bool-cases (may_grow m)) [
  | inr x ↦ rw x same
  | inl x ↦ elim (Bool-cases (leb a.end c.start)) [
    | inl y ↦ elim (Bool-cases (ltb k.free_pages (a.end - a.start))) [
      | inl z ↦ rw (x, y, z) same
      | inr z ↦ rw (x, y, z) (λ ws g. (p, s, (ground arith, q, g)), λ ws. ground arith)
    ]
    | inr y ↦ elim (Bool-cases (ltb k.free_pages (c.start - a.start))) [
      | inl z ↦ rw (x, y, z) same
      | inr z ↦
          rw (x, y, z)
            (before_node-Fits b (c.end - c.start + (k.free_pages - (c.start - a.start)))
              (c.end - c.start + k.free_pages) c (added m a c.start) _ p r (ground arith)
              (at_node-Fits m c.start c (record a { start = c.start }) _ (omega arith) q
                (omega arith) (ground arith)))
    ]
  ]
]
  where
    same : Keeps b (c.end - c.start + k.free_pages) c (c ∷ []) k
    same = (λ ws g. (omega arith, q, g), λ ws. omega arith)

round-Fits :
    (m : Access) (b : ℕ) (c a : PageRange) (k : Counts)
    → b ≤ c.start
    → b ≤ a.start
    → c.start < c.end
    → a.start < a.end
    → Fits b (c.end - c.start + k.free_pages) c (round m a c k)
unfolding round
round-Fits m b c a k p q r s = elim (Bool-cases (ltb a.start c.start)) [
  | inl y ↦ rw y (gap-Fits m b c a k q r (ground arith) s)
  | inr y ↦ rw y (at_node-Fits m b c a k p r (ground arith) s)
]

-- The walk over a sorted list, for a request that is not empty.
abbrev pub Sound : ℕ → ℕ → Walked → Type 0
Sound b n w = IsSorted b w.pages × (cached w.pages + w.counts.free_pages ≡ n)

walk_nil-Sound :
    (m : Access) (b : ℕ) (a : PageRange) (k : Counts)
    → b ≤ a.start
    → a.start < a.end
    → Sound b k.free_pages (walk m a [] k)
unfolding walk cached
walk_nil-Sound m b a k p s = elim (Bool-cases (may_grow m)) [
  | inr x ↦ rw x (tt, omega arith)
  | inl x ↦ elim (Bool-cases (ltb k.free_pages (a.end - a.start))) [
    | inl z ↦ rw (x, z) (tt, omega arith)
    | inr z ↦ rw (x, z) ((p, s, tt), ground arith)
  ]
]

after_round-Sound :
    (m : Access) (b n : ℕ) (c : PageRange) (cs : List PageRange) (r : Round)
    → Fits b n c r
    → IsSorted c.end cs
    → ((a : PageRange) (k : Counts)
        → c.end ≤ a.start
        → a.start < a.end
        → Sound c.end (cached cs + k.free_pages) (walk m a cs k))
    → Sound b (cached cs + n) (after_round cs (λ a k. walk m a cs k) r)
unfolding Fits after_round
after_round-Sound m b n c cs (stop s front k) f o ih = (f.0 cs o, omega (arith, f.1 cs))
after_round-Sound m b n c cs (on front a k) f o ih =
    let w = walk m a cs k in
    let (x, y) = ih a k f.1 f.2 in (f.0.0 w.pages x, omega (arith, f.0.1 w.pages, y))

pub walk_lem :
    (m : Access) (b : ℕ) (a : PageRange) (cs : List PageRange) (k : Counts)
    → IsSorted b cs
    → b ≤ a.start
    → a.start < a.end
    → Sound b (cached cs + k.free_pages) (walk m a cs k)
unfolding walk cached
walk_lem m b a [] k o p s = let (x, y) = walk_nil-Sound m b a k p s in (x, omega (arith, y))
walk_lem m b a (c ∷ cs) k o p s =
    let (x, y) =
      after_round-Sound m b _ c cs (round m a c k) (round-Fits m b c a k o.0 p o.1 s) o.2
        (λ a' k' p' s'. walk_lem m c.end a' cs k' o.2 p' s') in
    (x, omega (arith, y))
