-- ===== src/Cache/Ranges/Missing.antt =====
-- `walkCache_countMissing` (omnetpp/dserver/diskcache/DiskCache.cc) counts the pages that a write adds.
use pfssim.Base.{
  ℕ, ◌+◌, ◌-◌, ◌≤◌, ◌<◌, ◌≡◌, refl, inl, inr, true, false, ◌&&◌, ◌||◌, List, [], ◌∷◌, ltb, leb,
  ◌==◌, if◌then◌else◌, Bool-cases, arith,
}
use pfssim.Cache.{
  PageRange, Counts, Round, stop, on, pass, hit, gap, at_node, before_node, after_round, round,
  walk, grown, added, count_missing, over_gap, over_node,
}
use pfssim.Cache.Ranges.Ends.{write_cache}

-- The round takes `n` of `free` pages; `s` is where the request begins after the gap.
Takes : ℕ → ℕ → ℕ → PageRange → ℕ → Round → Type 0
Takes n free s c e (stop st front k) =
    (k.free_pages + n ≡ free) × ((ltb s c.end && ltb e c.end || over_node s c == e) ≡ true)
Takes n free s c e (on front a k) =
    (k.free_pages + n ≡ free)
    × ((ltb s c.end && ltb e c.end || over_node s c == e) ≡ false)
    × (a.start ≡ over_node s c)
    × (a.end ≡ e)
    × (a.start < a.end)

at_node-Takes :
    (a c : PageRange) (k : Counts)
    → a.start < a.end
    → Takes 0 k.free_pages a.start c a.end (at_node write_cache a c k)
unfolding at_node hit pass Takes over_node
at_node-Takes a c k s = elim (Bool-cases (ltb a.start c.end)) [
  | inr y ↦ elim (Bool-cases (a.start == a.end)) [
    | inl z ↦ rw (y, z) (omega arith, ground arith)
    | inr z ↦ rw (y, z) (omega arith, ground arith, ground arith, refl, s)
  ]
  | inl y ↦ elim (Bool-cases (ltb a.end c.end)) [
    | inl z ↦ rw (y, z) (omega arith, ground arith)
    | inr z ↦ elim (Bool-cases (c.end == a.end)) [
      | inl w ↦ rw (y, z, w) (omega arith, ground arith)
      | inr w ↦ rw (y, z, w) (omega arith, ground arith, ground arith, refl, ground arith)
    ]
  ]
]

before_node-Takes :
    (n m free free' s e : ℕ) (t c : PageRange) (r : Round)
    → free + m ≡ free'
    → Takes n free s c e r
    → Takes (n + m) free' s c e (before_node t r)
unfolding before_node Takes
before_node-Takes n m free free' s e t c (stop st front k) q h = (omega (arith, h.0), h.1)
before_node-Takes n m free free' s e t c (on front a k) q h =
    (omega (arith, h.0), h.1, h.2, h.3, h.4)

after_round-Takes :
    (n free s e : ℕ) (c : PageRange) (cs : List PageRange) (r : Round)
    → Takes n free s c e r
    → ((a : PageRange) (k : Counts)
        → a.start < a.end
        → a.end - a.start ≤ k.free_pages
        → (walk write_cache a cs k).counts.free_pages + count_missing a.start a.end cs
          ≡ k.free_pages)
    → e - over_node s c + n ≤ free
    → (after_round cs (λ a k. walk write_cache a cs k) r).counts.free_pages
        + (n
            + (if ltb s c.end && ltb e c.end || over_node s c == e
                then 0
                else count_missing (over_node s c) e cs))
      ≡ free
unfolding Takes after_round
after_round-Takes n free s e c cs (stop st front k) h ih l = rw (h.1) (omega (arith, h.0))
after_round-Takes n free s e c cs (on front a k) h ih l =
    rw (h.1, ← h.2, ← h.3)
      (omega (arith, h.0, h.2, h.3, ih a k h.4 (omega (arith, h.0, h.2, h.3, l))))

-- A write to the cache, before it begins, takes as many free pages as `walkCache_countMissing` counts,
-- where the request is not empty and there are as many free pages as it has pages.
pub write-count_missing :
    (a : PageRange) (cs : List PageRange) (k : Counts)
    → a.start < a.end
    → a.end - a.start ≤ k.free_pages
    → (walk write_cache a cs k).counts.free_pages + count_missing a.start a.end cs ≡ k.free_pages
unfolding walk round gap count_missing over_gap
write-count_missing a [] k s h = ground arith
write-count_missing a (c ∷ cs) k s h = elim (Bool-cases (ltb a.start c.start)) [
  | inr x ↦ rw x (
      omega (
        arith,
        after_round-Takes 0 k.free_pages a.start a.end c cs (at_node write_cache a c k)
            (at_node-Takes a c k s) (λ a' k' s' h'. write-count_missing a' cs k' s' h')
            (unfold over_node in ground arith),
      ))
  | inl x ↦ elim (Bool-cases (leb a.end c.start)) [
    | inl y ↦ elim (Bool-cases (ltb k.free_pages (a.end - a.start))) [
      | inl z ↦ absurd (ground arith)
      | inr z ↦ rw (x, y, z) (unfold after_round in omega arith)
    ]
    | inr y ↦ elim (Bool-cases (ltb k.free_pages (c.start - a.start))) [
      | inl z ↦ absurd (ground arith)
      | inr z ↦
          rw (x, y, z)
            (omega (
              arith,
              after_round-Takes (0 + (c.start - a.start)) k.free_pages c.start a.end c cs
                  (before_node (added write_cache a c.start) (
                    at_node write_cache (record a { start = c.start }) c
                      (grown write_cache (c.start - a.start) k)))
                  (before_node-Takes 0 (c.start - a.start) (k.free_pages - (c.start - a.start))
                    k.free_pages c.start a.end (added write_cache a c.start) c _ (ground arith)
                    (at_node-Takes (record a { start = c.start }) c
                      (grown write_cache (c.start - a.start) k) (ground arith)))
                  (λ a' k' s' h'. write-count_missing a' cs k' s' h')
                  (unfold over_node in ground arith),
            ))
    ]
  ]
]
