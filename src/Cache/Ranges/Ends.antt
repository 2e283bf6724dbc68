-- ===== src/Cache/Ranges/Ends.antt =====
-- `walkCache_update` (omnetpp/dserver/diskcache/DiskCache.cc) ends without an error.
use pfssim.Base.{
  ℕ, ◌-◌, ◌≤◌, ◌<◌, ◌≡◌, ◌≢◌, refl, inl, inr, true, false, not, ◌&&◌, none, List, [], ◌∷◌, ltb, leb,
  ◌==◌, Bool-cases, arith,
}
use pfssim.Cache.{
  Access, PageRange, Counts, Round, stop, on, finished, pass, hit, gap, at_node, before_node,
  after_round, round, walk,
}
use pfssim.Cache.Ranges.{IsSorted}
use pfssim.Cache.Ranges.Marks.{flags_at, flags_at_before, expected, walk-Marks}

-- Before a write to the cache.
abbrev pub write_cache : Access
write_cache = record { preop = true; disk = false; read = false }

-- The round ends the walk well, or leaves a request for which the free pages suffice.
Affords : Round → Type 0
Affords (stop s front k) = s ≡ finished
Affords (on front a k) = (a.start < a.end) × (a.end - a.start ≤ k.free_pages)

pass-Affords :
    (m : Access) (front : List PageRange) (a : PageRange) (k : Counts)
    → a.start ≤ a.end
    → a.end - a.start ≤ k.free_pages
    → Affords (pass m front a k)
unfolding pass Affords
pass-Affords m front a k l h = elim (Bool-cases (a.start == a.end)) [
  | inl z ↦ rw z refl
  | inr z ↦ elim (Bool-cases (m.preop && not m.disk && m.read)) [
    | inl y ↦ rw (z, y) refl
    | inr y ↦ rw (z, y) (ground arith, h)
  ]
]

hit-Affords :
    (a c : PageRange) (k : Counts)
    → a.start < c.end
    → a.start < a.end
    → a.end - a.start ≤ k.free_pages
    → Affords (hit write_cache a c k)
unfolding hit Affords
hit-Affords a c k r s h = elim (Bool-cases (ltb a.end c.end)) [
  | inl y ↦ rw y refl
  | inr y ↦
      rw y (pass-Affords write_cache _ (record a { start = c.end }) k (ground arith) (ground arith))
]

at_node-Affords :
    (a c : PageRange) (k : Counts)
    → a.start < a.end
    → a.end - a.start ≤ k.free_pages
    → Affords (at_node write_cache a c k)
unfolding at_node
at_node-Affords a c k s h = elim (Bool-cases (ltb a.start c.end)) [
  | inl y ↦ rw y (hit-Affords a c k (ground arith) s h)
  | inr y ↦ rw y (pass-Affords write_cache (c ∷ []) a k (omega arith) h)
]

before_node-Affords : (t : PageRange) (r : Round) → Affords r → Affords (before_node t r)
unfolding before_node Affords
before_node-Affords t (stop s front k) h = h
before_node-Affords t (on front a k) h = h

round-Affords :
    (a c : PageRange) (k : Counts)
    → a.start < a.end
    → a.end - a.start ≤ k.free_pages
    → Affords (round write_cache a c k)
unfolding round gap
round-Affords a c k s h = elim (Bool-cases (ltb a.start c.start)) [
  | inr x ↦ rw x (at_node-Affords a c k s h)
  | inl x ↦ elim (Bool-cases (leb a.end c.start)) [
    | inl y ↦ elim (Bool-cases (ltb k.free_pages (a.end - a.start))) [
      | inl z ↦ absurd (ground arith)
      | inr z ↦ rw (x, y, z) (unfold Affords in refl)
    ]
    | inr y ↦ elim (Bool-cases (ltb k.free_pages (c.start - a.start))) [
      | inl z ↦ absurd (ground arith)
      | inr z ↦
          rw (x, y, z)
            (before_node-Affords _ _
              (at_node-Affords (record a { start = c.start }) c _ (ground arith) (ground arith)))
    ]
  ]
]

after_round-finished :
    (m : Access) (cs : List PageRange) (r : Round)
    → Affords r
    → ((a : PageRange) (k : Counts)
        → a.start < a.end
        → a.end - a.start ≤ k.free_pages
        → (walk m a cs k).status ≡ finished)
    → (after_round cs (λ a k. walk m a cs k) r).status ≡ finished
unfolding Affords after_round
after_round-finished m cs (stop s front k) h ih = h
after_round-finished m cs (on front a k) h ih = ih a k h.0 h.1

-- The walk before a write to the cache ends without an error, where the request is not empty and
-- there are as many free pages as it has pages.
pub write_finishes :
    (a : PageRange) (cs : List PageRange) (k : Counts)
    → a.start < a.end
    → a.end - a.start ≤ k.free_pages
    → (walk write_cache a cs k).status ≡ finished
unfolding walk
write_finishes a [] k s h = ground arith
write_finishes a (c ∷ cs) k s h =
    after_round-finished write_cache cs (round write_cache a c k) (round-Affords a c k s h)
      (λ a' k' s' h'. write_finishes a' cs k' s' h')

-- All pages of the request are cached.
abbrev pub Present : PageRange → List PageRange → Type 0
Present a cs = (p : ℕ) → a.start ≤ p → p < a.end → flags_at p cs ≢ none

Meets : PageRange → PageRange → Round → Type 0
Meets c a (stop s front k) = s ≡ finished
Meets c a (on front a' k) =
    (a.start ≤ a'.start) × (c.end ≤ a'.start) × (a'.start < a'.end) × (a'.end ≡ a.end)

pass-Meets :
    (m : Access) (front : List PageRange) (c a a' : PageRange) (k : Counts)
    → a.start ≤ a'.start
    → c.end ≤ a'.start
    → a'.start ≤ a'.end
    → a'.end ≡ a.end
    → Meets c a (pass m front a' k)
unfolding pass Meets
pass-Meets m front c a a' k l j h e = elim (Bool-cases (a'.start == a'.end)) [
  | inl z ↦ rw z refl
  | inr z ↦ elim (Bool-cases (m.preop && not m.disk && m.read)) [
    | inl y ↦ rw (z, y) refl
    | inr y ↦ rw (z, y) (l, j, ground arith, e)
  ]
]

at_node-Meets :
    (m : Access) (a c : PageRange) (k : Counts)
    → (m.preop && m.disk && m.read) ≡ false
    → a.start < a.end
    → Meets c a (at_node m a c k)
unfolding at_node hit
at_node-Meets m a c k f s = elim (Bool-cases (ltb a.start c.end)) [
  | inr y ↦ rw y (pass-Meets m (c ∷ []) c a a k (omega arith) (ground arith) (omega arith) refl)
  | inl y ↦ elim (Bool-cases (ltb a.end c.end)) [
    | inl z ↦ rw (y, f, z) (unfold Meets in refl)
    | inr z ↦
        rw (y, f, z)
          (pass-Meets m _ c a (record a { start = c.end }) _ (ground arith) (omega arith)
            (ground arith) refl)
  ]
]

after_round-Meets :
    (m : Access) (a c : PageRange) (cs : List PageRange) (r : Round)
    → Meets c a r
    → Present a (c ∷ cs)
    → ((a : PageRange) (k : Counts)
        → a.start < a.end
        → Present a cs
        → (walk m a cs k).status ≡ finished)
    → (after_round cs (λ a k. walk m a cs k) r).status ≡ finished
unfolding Meets after_round flags_at
after_round-Meets m a c cs (stop s front k) h g ih = h
after_round-Meets m a c cs (on front a' k) h g ih = ih a' k h.2 (λ p l u. ground (arith, g p))

-- Where all pages of a request that is not empty are cached in a sorted list, a walk ends without an
-- error, unless it reads from the disk.
pub Present-finishes :
    (m : Access) (b : ℕ) (a : PageRange) (cs : List PageRange) (k : Counts)
    → (m.preop && m.disk && m.read) ≡ false
    → IsSorted b cs
    → a.start < a.end
    → Present a cs
    → (walk m a cs k).status ≡ finished
unfolding walk round
Present-finishes m b a [] k f o s g = absurd (g a.start (omega arith) s (unfold flags_at in refl))
Present-finishes m b a (c ∷ cs) k f o s g = elim (Bool-cases (ltb a.start c.start)) [
  | inl x ↦ absurd (
      g a.start (omega arith) s
        (flags_at_before a.start c.start (c ∷ cs) (omega arith, o.1, o.2) (ground arith)))
  | inr x ↦ rw x (
      after_round-Meets m a c cs (at_node m a c k) (at_node-Meets m a c k f s) g
        (λ a' k' s' g'. Present-finishes m c.end a' cs k' f o.2 s' g'))
]

-- Before a read from the disk.
abbrev pub read_disk : Access
read_disk = record { preop = true; disk = true; read = true }

-- No page of the request is cached.
abbrev pub Absent : PageRange → List PageRange → Type 0
Absent a cs = (p : ℕ) → a.start ≤ p → p < a.end → flags_at p cs ≡ none

-- Where no page of a request that is not empty is cached in a sorted list, and there are as many free
-- pages as it has, the walk before a read from the disk ends without an error.
pub Absent-finishes :
    (b : ℕ) (a : PageRange) (cs : List PageRange) (k : Counts)
    → IsSorted b cs
    → a.start < a.end
    → a.end - a.start ≤ k.free_pages
    → Absent a cs
    → (walk read_disk a cs k).status ≡ finished
unfolding walk round gap at_node pass after_round flags_at
Absent-finishes b a [] k o s h g = ground arith
Absent-finishes b a (c ∷ cs) k o s h g = elim (Bool-cases (ltb a.start c.start)) [
  | inl x ↦ elim (Bool-cases (leb a.end c.start)) [
    | inl y ↦ elim (Bool-cases (ltb k.free_pages (a.end - a.start))) [
      | inl z ↦ absurd (ground arith)
      | inr z ↦ rw (x, y, z) refl
    ]
    | inr y ↦ absurd (cached_page c.start (ground arith) (ground arith) (omega arith) (omega arith))
  ]
  | inr x ↦ elim (Bool-cases (ltb a.start c.end)) [
    | inl y ↦ absurd (cached_page a.start (omega arith) s (ground arith) (ground arith))
    | inr y ↦ elim (Bool-cases (a.start == a.end)) [
      | inl z ↦ absurd (ground arith)
      | inr z ↦
          rw (x, y) (rw z (Absent-finishes c.end a cs k o.2 s h (λ p i j. ground (arith, g p i j))))
    ]
  ]
]
  where
    cached_page : (p : ℕ) → a.start ≤ p → p < a.end → c.start ≤ p → p < c.end → ⊥
    cached_page p i j l m = ground (arith, g p i j)

-- Where all pages of a request that is not empty are cached in a sorted list, a walk ends without an
-- error and marks the pages of the request alone, unless it reads from the disk or is the walk before
-- a read of the cache.
pub Present-Marks :
    (m : Access) (b p : ℕ) (a : PageRange) (cs : List PageRange) (k : Counts)
    → (m.preop && m.read) ≡ false
    → IsSorted b cs
    → a.start < a.end
    → Present a cs
    → ((walk m a cs k).status ≡ finished)
      × (flags_at p (walk m a cs k).pages ≡ expected m a p (flags_at p cs))
Present-Marks m b p a cs k f o s g =
    let e = Present-finishes m b a cs k (ground arith) o s g in
    (e, walk-Marks m p b a cs k (ground arith) o s e)
