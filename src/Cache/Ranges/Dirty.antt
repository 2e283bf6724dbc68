-- ===== src/Cache/Ranges/Dirty.antt =====
-- What `walkCache_update` (omnetpp/dserver/diskcache/DiskCache.cc) counts as dirty.
use pfssim.Base.{
  ℕ, ◌+◌, ◌-◌, ◌≤◌, ◌<◌, ◌≡◌, refl, inl, inr, true, false, not, ◌&&◌, List, [], ◌∷◌, ltb, ◌==◌,
  if◌then◌else◌, Bool-cases, arith,
}
use pfssim.Cache.{
  Access, PageRange, Counts, Round, Walked, stop, on, pass, hit, at_node, page_range, after_round,
  round, walk, written_back,
}
use pfssim.Cache.Ranges.{IsSorted, walk_lem}
use pfssim.Cache.Ranges.Marks.{flags_at, flags_at_before, expected-ne-none}
use pfssim.Cache.Ranges.Ends.{write_cache, Present, Present-Marks}

-- Before a write to the disk.
abbrev pub write_back : Access
write_back = record { preop = true; disk = true; read = false }

abbrev cleans : Access → ℕ → ℕ
cleans m n = if m.preop && m.disk && not m.read then n else 0

-- The counts of a round at a node with pages of the request `a`.
Charges : Access → PageRange → PageRange → Counts → Round → Type 0
Charges m a c k (stop s front k') =
    (k'.dirtied ≡ k.dirtied) × (k'.cleaned ≡ k.cleaned + cleans m (a.end - a.start))
Charges m a c k (on front a' k') =
    (k'.dirtied ≡ k.dirtied)
    × (k'.cleaned + cleans m (a'.end - a'.start) ≡ k.cleaned + cleans m (a.end - a.start))
    × (c.end ≤ a'.start)
    × (a.start ≤ a'.start)
    × (a'.start < a'.end)
    × (a'.end ≡ a.end)

pass-Charges :
    (m : Access) (front : List PageRange) (a c a' : PageRange) (k k' : Counts)
    → m.read ≡ false
    → k'.dirtied ≡ k.dirtied
    → k'.cleaned + cleans m (a'.end - a'.start) ≡ k.cleaned + cleans m (a.end - a.start)
    → c.end ≤ a'.start
    → a.start ≤ a'.start
    → a'.start ≤ a'.end
    → a'.end ≡ a.end
    → Charges m a c k (pass m front a' k')
unfolding pass Charges
pass-Charges m front a c a' k k' w d e p q r s = elim (Bool-cases (a'.start == a'.end)) [
  | inl z ↦ rw z (d, ground arith)
  | inr z ↦ elim (Bool-cases (m.preop && not m.disk && m.read)) [
    | inl y ↦ absurd (ground arith)
    | inr y ↦ rw (z, y) (d, e, p, q, ground arith, s)
  ]
]

at_node-Charges :
    (m : Access) (a c : PageRange) (k : Counts)
    → m.read ≡ false
    → a.start < a.end
    → Charges m a c k (at_node m a c k)
unfolding at_node hit
at_node-Charges m a c k w s = elim (Bool-cases (ltb a.start c.end)) [
  | inr y ↦ rw y (
      pass-Charges m (c ∷ []) a c a k k w refl refl (ground arith) (omega arith) (omega arith) refl)
  | inl y ↦ elim (Bool-cases (m.preop && m.disk && m.read)) [
    | inl x ↦ absurd (ground arith)
    | inr x ↦ elim (Bool-cases (ltb a.end c.end)) [
      | inl z ↦ rw (y, x, z) (unfold Charges in (ground arith, ground arith))
      | inr z ↦
          rw (y, x, z)
            (pass-Charges m _ a c (record a { start = c.end }) k
              (written_back m (c.end - a.start) k) w (ground arith) (ground arith) (omega arith)
              (ground arith) (ground arith) refl)
    ]
  ]
]

-- The counts after a walk.
abbrev Charged : Access → PageRange → Counts → Walked → Type 0
Charged m a k w =
    (w.counts.dirtied ≡ k.dirtied) × (w.counts.cleaned ≡ k.cleaned + cleans m (a.end - a.start))

after_round-Charged :
    (m : Access) (a c : PageRange) (cs : List PageRange) (k : Counts) (r : Round)
    → Charges m a c k r
    → Present a (c ∷ cs)
    → ((a' : PageRange) (k' : Counts)
        → a'.start < a'.end
        → Present a' cs
        → Charged m a' k' (walk m a' cs k'))
    → Charged m a k (after_round cs (λ a' k'. walk m a' cs k') r)
unfolding Charges after_round flags_at
after_round-Charged m a c cs k (stop s front k') h g ih = h
after_round-Charged m a c cs k (on front a' k') h g ih =
    let (d, e) = ih a' k' h.4 (λ p l u. ground (arith, g p)) in
    (omega (arith, d, h.0), omega (arith, e, h.1))

Present-Charged :
    (m : Access) (b : ℕ) (a : PageRange) (cs : List PageRange) (k : Counts)
    → m.read ≡ false
    → IsSorted b cs
    → a.start < a.end
    → Present a cs
    → Charged m a k (walk m a cs k)
unfolding walk round
Present-Charged m b a [] k f o s g = absurd (g a.start (omega arith) s (unfold flags_at in refl))
Present-Charged m b a (c ∷ cs) k f o s g = elim (Bool-cases (ltb a.start c.start)) [
  | inl x ↦ absurd (
      g a.start (omega arith) s
        (flags_at_before a.start c.start (c ∷ cs) (omega arith, o.1, o.2) (ground arith)))
  | inr x ↦ rw x (
      after_round-Charged m a c cs k (at_node m a c k) (at_node-Charges m a c k f s) g
        (λ a' k' s' g'. Present-Charged m c.end a' cs k' f o.2 s' g'))
]

-- Pages that are all cached, dirty or not, are written in the cache and then written back. The write
-- adds nothing to `dirty_pages`, and the walk before writing back takes all of them off.
pub rewritten_pages_uncounted :
    (s e b : ℕ) (cs : List PageRange) (k : Counts)
    → b ≤ s
    → s < e
    → IsSorted b cs
    → Present (page_range s e true) cs
    → let w = walk write_cache (page_range s e true) cs k in
      let v = walk write_back (page_range s e true) w.pages w.counts in
      (w.counts.dirtied ≡ k.dirtied)
      × (w.counts.cleaned ≡ k.cleaned)
      × (v.counts.dirtied ≡ k.dirtied)
      × (v.counts.cleaned ≡ k.cleaned + (e - s))
rewritten_pages_uncounted s e b cs k l h o g =
    let a = page_range s e true in
    let w = walk write_cache a cs k in
    let (d, c) = Present-Charged write_cache b a cs k refl o h g in
    let (d', c') =
      Present-Charged write_back b a w.pages w.counts refl (walk_lem write_cache b a cs k o l h).0 h
        still in
    (d, omega (arith, c), omega (arith, d, d'), omega (arith, c, c'))
  where
    still : Present (page_range s e true) (walk write_cache (page_range s e true) cs k).pages
    still p i j =
        rw ((Present-Marks write_cache b p (page_range s e true) cs k refl o h g).1)
          (expected-ne-none write_cache (page_range s e true) p (flags_at p cs) i j)
