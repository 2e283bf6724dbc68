-- ===== src/Cache/Ranges/Marks.antt =====
-- What `walkCache_update` (omnetpp/dserver/diskcache/DiskCache.cc) does to each page.
use pfssim.Base.{
  ℕ, ◌-◌, ◌≤◌, ◌<◌, ◌≡◌, ◌≢◌, refl, ◌∙◌, inl, inr, Bool, true, not, ◌&&◌, Option, none, some, List,
  [], ◌∷◌, ◌++◌, ltb, leb, ◌==◌, if◌then◌else◌, Bool-cases, arith,
}
use pfssim.Cache.{
  Access, Flags, PageRange, Counts, Round, stop, on, finished, refused, short, pass, hit, gap,
  at_node, before_node, after_round, round, walk, may_grow, added, fresh, mark, kept_before,
}
use pfssim.Cache.Ranges.{IsSorted}

-- The flags of page `p`, where it is cached.
unfoldable pub flags_at : ℕ → List PageRange → Option Flags
flags_at p [] = none
flags_at p (c ∷ cs) = if leb c.start p && ltb p c.end then some c.flags else flags_at p cs

-- What an access makes of the flags `o` of a page: those of a new page, or marked ones.
unfoldable pub touched : Access → Flags → Option Flags → Option Flags
touched m f none = some (fresh m f)
touched m f (some g) = some (mark m f g)

unfoldable pub expected : Access → PageRange → ℕ → Option Flags → Option Flags
expected m a p o = if leb a.start p && ltb p a.end then touched m a.flags o else o

touched-ne-none : (m : Access) (f : Flags) (o : Option Flags) → touched m f o ≢ none
unfolding touched
touched-ne-none m f none = λ e. cc
touched-ne-none m f (some g) = λ e. cc

in_range : (s e p : ℕ) → s ≤ p → p < e → (leb s p && ltb p e) ≡ true
in_range s e p l u = ground arith

-- Every page of a request is cached after it.
pub expected-ne-none :
    (m : Access) (a : PageRange) (p : ℕ) (o : Option Flags)
    → a.start ≤ p
    → p < a.end
    → expected m a p o ≢ none
unfolding expected
expected-ne-none m a p o l u = rw (in_range a.start a.end p l u) (touched-ne-none m a.flags o)

pub flags_at_before : (p b : ℕ) (cs : List PageRange) → IsSorted b cs → p < b → flags_at p cs ≡ none
unfolding flags_at
flags_at_before p b [] o h = refl
flags_at_before p b (c ∷ cs) o h = ground (arith, flags_at_before p c.end cs)

flags_at-kept_before :
    (p : ℕ) (c a : PageRange) (xs ws : List PageRange)
    → c.start ≤ a.start
    → a.start < c.end
    → flags_at p (kept_before a c xs ++ ws)
      ≡ (if leb c.start p && ltb p a.start then some c.flags else flags_at p (xs ++ ws))
unfolding flags_at
flags_at-kept_before p c a xs ws q r = elim (Bool-cases (a.start == c.start)) [
  | inl e ↦ rw e (ground arith)
  | inr e ↦ rw e refl
]

-- What the nodes `front` owe for the page `p`, where `a'` is left of the request `a` after the node
-- `c`, given the rest `cs` of the list and what becomes of it.
abbrev Fronts :
    Access → ℕ → PageRange → PageRange → List PageRange → List PageRange → PageRange → Type 0
Fronts m p a c cs front a' =
    (ws : List PageRange)
    → (p < c.end → flags_at p cs ≡ none)
    → flags_at p ws ≡ expected m a' p (flags_at p cs)
    → flags_at p (front ++ ws) ≡ expected m a p (flags_at p (c ∷ cs))

Marks : Access → ℕ → PageRange → PageRange → List PageRange → Round → Type 0
Marks m p a c cs (stop finished front k) =
    (p < c.end → flags_at p cs ≡ none)
    → flags_at p (front ++ cs) ≡ expected m a p (flags_at p (c ∷ cs))
Marks m p a c cs (stop refused front k) = Unit
Marks m p a c cs (stop short front k) = Unit
Marks m p a c cs (on front a' k) =
    (c.end ≤ a'.start) × (a'.start < a'.end) × Fronts m p a c cs front a'

-- A read of the cache, before it begins, only marks one node.
abbrev pub marks_all : Access → Bool
marks_all m = not (m.preop && not m.disk && m.read)

pass-Marks :
    (m : Access) (p : ℕ) (a c : PageRange) (cs front : List PageRange) (a' : PageRange) (k : Counts)
    → marks_all m ≡ true
    → c.end ≤ a'.start
    → a'.start ≤ a'.end
    → Fronts m p a c cs front a'
    → Marks m p a c cs (pass m front a' k)
unfolding Marks pass expected
pass-Marks m p a c cs front a' k all l e h = elim (Bool-cases (a'.start == a'.end)) [
  | inl z ↦ rw z (λ g. h cs g (ground arith))
  | inr z ↦ elim (Bool-cases (m.preop && not m.disk && m.read)) [
    | inl y ↦ absurd (ground arith)
    | inr y ↦ rw (z, y) (l, ground arith, h)
  ]
]

hit-Marks :
    (m : Access) (p : ℕ) (a c : PageRange) (cs : List PageRange) (k : Counts)
    → marks_all m ≡ true
    → c.start ≤ a.start
    → a.start < c.end
    → a.start < a.end
    → Marks m p a c cs (hit m a c k)
unfolding Marks hit expected flags_at touched
hit-Marks m p a c cs k all q r s = elim (Bool-cases (m.preop && m.disk && m.read)) [
  | inl x ↦ rw x tt
  | inr x ↦ elim (Bool-cases (ltb a.end c.end)) [
    | inl y ↦ rw (x, y) (λ g. flags_at-kept_before p c a _ cs q r ∙ (ground arith))
    | inr y ↦
        rw (x, y)
          (pass-Marks m p a c cs _ (record a { start = c.end }) _ all (omega arith) (ground arith)
            (λ ws g h. flags_at-kept_before p c a _ ws q r ∙ (ground arith)))
  ]
]

at_node-Marks :
    (m : Access) (p : ℕ) (a c : PageRange) (cs : List PageRange) (k : Counts)
    → marks_all m ≡ true
    → c.start ≤ a.start
    → a.start < a.end
    → Marks m p a c cs (at_node m a c k)
unfolding at_node expected flags_at
at_node-Marks m p a c cs k all q s = elim (Bool-cases (ltb a.start c.end)) [
  | inl y ↦ rw y (hit-Marks m p a c cs k all q (ground arith) s)
  | inr y ↦
      rw y (
        pass-Marks m p a c cs (c ∷ []) a k all (ground arith) (omega arith)
          (λ ws g h. ground arith))
]

-- Pages are added before the node `c`, and the request goes on where it begins.
before_node-Marks :
    (m : Access) (p : ℕ) (a c : PageRange) (cs : List PageRange) (r : Round)
    → a.start < c.start
    → c.start < c.end
    → c.start < a.end
    → Marks m p (record a { start = c.start }) c cs r
    → Marks m p a c cs (before_node (added m a c.start) r)
unfolding Marks before_node expected flags_at touched
before_node-Marks m p a c cs (stop finished front k) q o e h = λ g. ground (arith, h g, g)
before_node-Marks m p a c cs (stop refused front k) q o e h = tt
before_node-Marks m p a c cs (stop short front k) q o e h = tt
before_node-Marks m p a c cs (on front a' k) q o e h =
    (h.0, h.1, λ ws g i. ground (arith, h.2 ws g i, g))

gap-Marks :
    (m : Access) (p : ℕ) (a c : PageRange) (cs : List PageRange) (k : Counts)
    → marks_all m ≡ true
    → a.start < c.start
    → c.start < c.end
    → a.start < a.end
    → Marks m p a c cs (gap m a c k)
unfolding gap Marks
gap-Marks m p a c cs k all q o s = elim (Bool-cases (may_grow m)) [
  | inr x ↦ rw x tt
  | inl x ↦ elim (Bool-cases (leb a.end c.start)) [
    | inl y ↦ elim (Bool-cases (ltb k.free_pages (a.end - a.start))) [
      | inl z ↦ rw (x, y, z) tt
      | inr z ↦ rw (x, y, z) (λ g. unfold expected flags_at touched in ground (arith, g))
    ]
    | inr y ↦ elim (Bool-cases (ltb k.free_pages (c.start - a.start))) [
      | inl z ↦ rw (x, y, z) tt
      | inr z ↦
          rw (x, y, z)
            (before_node-Marks m p a c cs _ q o (ground arith) (
              at_node-Marks m p (record a { start = c.start }) c cs _ all (omega arith)
                (ground arith)))
    ]
  ]
]

round-Marks :
    (m : Access) (p : ℕ) (a c : PageRange) (cs : List PageRange) (k : Counts)
    → marks_all m ≡ true
    → c.start < c.end
    → a.start < a.end
    → Marks m p a c cs (round m a c k)
unfolding round
round-Marks m p a c cs k all o s = elim (Bool-cases (ltb a.start c.start)) [
  | inl y ↦ rw y (gap-Marks m p a c cs k all (ground arith) o s)
  | inr y ↦ rw y (at_node-Marks m p a c cs k all (ground arith) s)
]

after_round-Marks :
    (m : Access) (p : ℕ) (a c : PageRange) (cs : List PageRange) (r : Round)
    → Marks m p a c cs r
    → IsSorted c.end cs
    → ((a' : PageRange) (k : Counts)
        → a'.start < a'.end
        → (walk m a' cs k).status ≡ finished
        → flags_at p (walk m a' cs k).pages ≡ expected m a' p (flags_at p cs))
    → (after_round cs (λ a' k. walk m a' cs k) r).status ≡ finished
    → flags_at p (after_round cs (λ a' k. walk m a' cs k) r).pages
      ≡ expected m a p (flags_at p (c ∷ cs))
unfolding Marks after_round
after_round-Marks m p a c cs (stop finished front k) h o ih e =
    h (λ l. flags_at_before p c.end cs o l)
after_round-Marks m p a c cs (stop refused front k) h o ih e = cc
after_round-Marks m p a c cs (stop short front k) h o ih e = cc
after_round-Marks m p a c cs (on front a' k) h o ih e =
    h.2 (walk m a' cs k).pages (λ l. flags_at_before p c.end cs o l) (ih a' k h.1 e)

walk_nil-Marks :
    (m : Access) (p : ℕ) (a : PageRange) (k : Counts)
    → (walk m a [] k).status ≡ finished
    → flags_at p (walk m a [] k).pages ≡ expected m a p none
unfolding walk flags_at expected touched
walk_nil-Marks m p a k e = ground arith

-- A walk that ends, in a sorted list and for a request that is not empty, marks the pages of the
-- request, adds those that are not cached, and leaves all other pages as they are.
pub walk-Marks :
    (m : Access) (p b : ℕ) (a : PageRange) (cs : List PageRange) (k : Counts)
    → marks_all m ≡ true
    → IsSorted b cs
    → a.start < a.end
    → (walk m a cs k).status ≡ finished
    → flags_at p (walk m a cs k).pages ≡ expected m a p (flags_at p cs)
unfolding walk flags_at
walk-Marks m p b a [] k all o s e = walk_nil-Marks m p a k e
walk-Marks m p b a (c ∷ cs) k all o s e =
    after_round-Marks m p a c cs (round m a c k) (round-Marks m p a c cs k all o.1 s) o.2
      (λ a' k' s' e'. walk-Marks m p c.end a' cs k' all o.2 s' e') e
