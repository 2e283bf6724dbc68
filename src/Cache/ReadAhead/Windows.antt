-- ===== src/Cache/ReadAhead/Windows.antt =====
-- The windows of `file_ra_state` (omnetpp/dserver/diskcache/DiskCache.cc).
use pfssim.Base.{
  ℕ, zero, suc, ◌+◌, ◌-◌, ◌*◌, ◌/◌, ◌≤◌, ◌<◌, ◌≡◌, ◌≢◌, refl, ap, ◌∙◌, subst, inl, inr, ◌⊎◌, Bool,
  true, false, not, ◌&&◌, ◌||◌, Option, none, some, ltb, ◌==◌, if◌then◌else◌, Bool-cases, arith,
}
use native.Mathlib.Nat.{mul-le-mul_left, mul-add, mul_assoc}
use pfssim.Cache.ReadAhead.{
  ReadAhead, Request, init, size_of, is_none, fill_ahead, replace, advance, start_ahead, last_page,
  next_page, is_page, max_ra, doubled, first_size, readahead_at, page_cache_readahead, ask,
  set_readahead, update_flag_incache, prepare_read,
}

double_half : (z n : ℕ) → z * n + z ≤ z * 2 * (n / 2) + z * 2
double_half z n = omega (
  arith,
  mul-le-mul_left z (let l : n ≤ 2 * (n / 2) + 1 = omega arith in l),
  mul-add z (2 * (n / 2)) 1,
  mul_assoc z 2 (n / 2),
)

half_zero : (n : ℕ) → (n / 2 == 0) ≡ true → n ≤ 1
half_zero n e = ground arith

doubled_covers :
    (fuel tmp z : ℕ) → tmp < fuel → (r : ℕ) × (doubled fuel tmp z ≡ some r) × (z * tmp + z ≤ 2 * r)
unfolding doubled
doubled_covers zero tmp z h = absurd (omega arith)
doubled_covers (suc fuel) tmp z h = elim (Bool-cases (tmp / 2 == 0)) [
  | inl e ↦ rw e (z, refl, omega (arith, mul-le-mul_left z (half_zero tmp e)))
  | inr e ↦
      let (r, q, l) = doubled_covers fuel (tmp / 2) (z * 2) (ground arith) in
      rw e (r, q, omega (arith, l, double_half z tmp))
]

-- For a length of at least 1 the loop of the first window ends. Its size is at most `ra_pages`, and it
-- holds the request unless it is cut to `ra_pages`.
pub first_size_covers :
    (length ra_pages : ℕ)
    → 1 ≤ length
    → (v : ℕ) × (first_size length ra_pages ≡ some v) × (v ≤ ra_pages) × (v < ra_pages → length ≤ v)
unfolding first_size
first_size_covers length ra_pages h =
    let (r, q, l) = doubled_covers length (length - 1) 2 (omega arith) in
    elim (Bool-cases (length == 0)) [
      | inl e ↦ absurd (ground arith)
      | inr e ↦
          rw (e, q) ((if ltb ra_pages r then ra_pages else r), refl, ground arith, ground arith)
    ]

-- The ahead window is empty or follows the current one, both hold `max_ra` pages at most, and before
-- the first access there is no ahead window.
pub record IsWindowed (r : ReadAhead) : Type 0 where
  pub adjacent : r.ahead_size ≢ 0 → r.ahead_start ≡ r.start + size_of r.size
  pub size_le : size_of r.size ≤ max_ra
  pub ahead_le : r.ahead_size ≤ max_ra
  pub pages_le : r.ra_pages ≤ max_ra
  pub untouched : r.prev_page ≡ none → r.ahead_size ≡ 0

-- Read-ahead is off, or a page was requested before.
Started : ReadAhead → Type 0
Started r = (is_none r.size || r.flag_incache || not (is_none r.prev_page)) ≡ true

fill_ahead-IsWindowed :
    (z : ℕ) (r : ReadAhead)
    → size_of r.size ≡ z
    → r.prev_page ≢ none
    → IsWindowed r
    → IsWindowed (fill_ahead z r)
      × ((fill_ahead z r).ahead_size ≢ 0 → (fill_ahead z r).ahead_start ≡ r.start + z)
fill_ahead-IsWindowed z r e n w = ground (arith, w.adjacent)

replace-IsWindowed : (r : ReadAhead) → r.prev_page ≢ none → IsWindowed r → IsWindowed (replace r)
replace-IsWindowed r n w = ground (arith, w.adjacent)

advance-IsWindowed :
    (s length z : ℕ) (r : ReadAhead)
    → r.size ≡ some z
    → r.prev_page ≢ none
    → IsWindowed r
    → IsWindowed (advance s length z r)
advance-IsWindowed s length z r e n w =
    let (v, j) = fill_ahead-IsWindowed z r (ap size_of e) n w in
    elim (Bool-cases (ltb (fill_ahead z r).ahead_start (s + length))) [
      | inl y ↦ rw y (replace-IsWindowed (fill_ahead z r) (ground arith) v)
      | inr y ↦ rw y v
    ]

moved :
    (o : Option ℕ) (s : ℕ) → (s == 0 && is_none o) ≡ false → (s == next_page o) ≡ true → o ≢ none
moved none s h k = ground arith
moved (some p) s h k = λ e. cc

last_page-ne-none : (s length : ℕ) → 1 ≤ length → is_none (last_page s length) ≡ false
last_page-ne-none s length h = ground arith

paged : (o : Option ℕ) (s : ℕ) (b : Bool) → (is_page o s && b) ≡ true → is_none o ≡ false
paged none s b h = cc
paged (some p) s b h = refl

first_page : (o : Option ℕ) (b : Bool) → (b && is_none o) ≡ true → o ≡ none
first_page none b h = refl
first_page (some p) true h = cc
first_page (some p) false h = cc

with_page-IsWindowed :
    (o : Option ℕ) (r : ReadAhead)
    → is_none o ≡ false
    → IsWindowed r
    → IsWindowed (record r { prev_page = o })
with_page-IsWindowed none r h w = cc
with_page-IsWindowed (some p) r h w = ground (arith, w.adjacent)

started : (o : Option ℕ) (x y : Bool) → is_none o ≡ false → (x || y || not (is_none o)) ≡ true
started o x y h = rw h (ground arith)

-- Where read-ahead is on, the end of the pages that are read ahead is kept.
KeepsRange : ReadAhead → ReadAhead → Type 0
KeepsRange r r' =
    (is_none r'.size || r'.flag_incache) ≡ false → r'.started_ra_range ≡ r.started_ra_range

advance_range :
    (s length z : ℕ) (r : ReadAhead) → (advance s length z r).started_ra_range ≡ r.started_ra_range
advance_range s length z r = ground arith

start_ahead_range :
    (e : ℕ) (r : ReadAhead) → (start_ahead e r).started_ra_range ≡ r.started_ra_range
start_ahead_range e r = ground arith

readahead_at-IsWindowed :
    (o : Option ℕ) (b : Bool) (s length : ℕ) (r : ReadAhead)
    → 1 ≤ length
    → r.size ≡ o
    → r.flag_incache ≡ b
    → IsWindowed r
    → (r' : ReadAhead) × (readahead_at o b s length r ≡ some r')
      × IsWindowed r'
      × Started r'
      × KeepsRange r r'
unfolding readahead_at Started KeepsRange
readahead_at-IsWindowed none b s length r h e i w = (
  record r { started_ra_range = 0 },
  refl,
  ground (arith, w.adjacent),
  ground arith,
  λ k. ground (arith, k, e, i),
)
readahead_at-IsWindowed (some z) true s length r h e i w = (
  record r { started_ra_range = 0 },
  refl,
  ground (arith, w.adjacent),
  ground arith,
  λ k. ground (arith, k, e, i),
)
readahead_at-IsWindowed (some z) false s length r h e i w =
    elim (Bool-cases (s == 0 && is_none r.prev_page)) [
      | inl y ↦
          let (v, q, l, c) = first_size_covers length r.ra_pages h in
          rw (y, q)
            (
              record r { size = some v; prev_page = last_page 0 length },
              refl,
              ground (arith, l, w.untouched (first_page r.prev_page (s == 0) y)),
              started (last_page 0 length) false r.flag_incache (last_page-ne-none 0 length h),
              λ k. refl,
            )
      | inr y ↦ elim (Bool-cases (is_page r.prev_page s && length == 1)) [
        | inl t ↦
            rw (y, t)
              (
                r,
                refl,
                w,
                started r.prev_page (is_none r.size) r.flag_incache
                    (paged r.prev_page s (length == 1) t),
                λ k. refl,
              )
        | inr t ↦ elim (Bool-cases (s == next_page r.prev_page)) [
          | inl u ↦
              rw (y, t, u)
                (
                  record (advance s length z r) { prev_page = last_page s length },
                  refl,
                  with_page-IsWindowed (last_page s length) (advance s length z r)
                      (last_page-ne-none s length h)
                      (advance-IsWindowed s length z r e (moved r.prev_page s y u) w),
                  started (last_page s length) (is_none (advance s length z r).size)
                      (advance s length z r).flag_incache (last_page-ne-none s length h),
                  λ k. advance_range s length z r,
                )
          | inr u ↦
              rw (y, t, u)
                (
                  _,
                  refl,
                  with_page-IsWindowed (last_page s length)
                      (record r { start = s; size = none; ahead_start = 0; ahead_size = 0 })
                      (last_page-ne-none s length h) (ground (arith, w.adjacent)),
                  refl,
                  λ k. refl,
                )
        ]
      ]
    ]

-- What a request owes: the windows keep their order, and the pages that are read ahead follow the
-- request, up to its new end, which is after the end of those that were read ahead before; and they are
-- left out only where read-ahead is off or the current window ends within the request or those.
pub record Prepared (e : ℕ) (r : ReadAhead) (q : Request) : Type 0 where
  pub windows : IsWindowed q.ra
  pub plain : q.ahead ≡ none → q.end ≡ e
  pub ahead :
      (x : ℕ × ℕ)
      → q.ahead ≡ some x
      → (x ≡ (e, q.end))
        × (e < q.end)
        × (q.ra.started_ra_range ≡ q.end)
        × (r.started_ra_range < q.end)
  pub stops :
      q.ahead ≡ none
      → q.ra.ahead_size ≢ 0
      → ((is_none q.ra.size || q.ra.flag_incache) ≡ true)
        ⊎ ((q.ra.start + size_of q.ra.size ≤ r.started_ra_range)
            ⊎ (q.ra.start + size_of q.ra.size ≤ e))

-- A window ends before the end `x`, which does not go past `m` and `e` both.
within : (w x m e : ℕ) → w ≤ x → (ltb m x && ltb e x) ≡ false → (w ≤ m) ⊎ (w ≤ e)
within w x m e l h = elim (Bool-cases (ltb m x)) [
  | inl y ↦ inr (ground (arith, l, h))
  | inr y ↦ inl (ground (arith, l))
]

ask-Prepared :
    (e : ℕ) (p r : ReadAhead)
    → r.started_ra_range ≡ p.started_ra_range
    → IsWindowed r
    → Prepared e p (ask e r)
unfolding ask
ask-Prepared e p r k w = elim (Bool-cases (ltb r.started_ra_range ra_end && ltb e ra_end)) [
  | inl y ↦ rw y (record {
    windows = ground (arith, w.adjacent);
    plain = λ h. cc;
    ahead = λ x h. (cc, ground arith, refl, ground (arith, k));
    stops = λ h i. cc;
  })
  | inr y ↦ rw y (record {
    windows = ground (arith, w.adjacent);
    plain = λ h. refl;
    ahead = λ x h. cc;
    stops = λ h i. inr (
        subst (λ m. (r.start + size_of r.size ≤ m) ⊎ (r.start + size_of r.size ≤ e)) k
          (within (r.start + size_of r.size) ra_end r.started_ra_range e (ahead_or i) y));
  })
]
  where
    ra_end : ℕ
    ra_end = if r.start_io then r.ahead_start + r.ahead_size else r.start + size_of r.size

    ahead_or : r.ahead_size ≢ 0 → r.start + size_of r.size ≤ ra_end
    ahead_or i = ground (arith, w.adjacent i)

start_ahead-IsWindowed :
    (e : ℕ) (r : ReadAhead) → r.prev_page ≢ none → IsWindowed r → IsWindowed (start_ahead e r)
start_ahead-IsWindowed e r n w =
    elim (Bool-cases (ltb (r.start + size_of r.size) e && not r.start_io)) [
      | inr y ↦ rw y w
      | inl y ↦ rw y (
          replace-IsWindowed (fill_ahead (size_of r.size) r) (ground arith)
            (fill_ahead-IsWindowed (size_of r.size) r refl n w).0)
    ]

paged_ne : (o : Option ℕ) → is_none o ≡ false → o ≢ none
paged_ne none h = cc
paged_ne (some p) h = λ e. cc

set_readahead-Prepared :
    (e : ℕ) (p r : ReadAhead)
    → Started r
    → KeepsRange p r
    → IsWindowed r
    → Prepared e p (set_readahead e r)
unfolding set_readahead Started KeepsRange
set_readahead-Prepared e p r s k w = elim (Bool-cases (is_none r.size || r.flag_incache)) [
  | inl y ↦ rw y (record {
    windows = ground (arith, w.adjacent);
    plain = λ h. refl;
    ahead = λ x h. cc;
    stops = λ h i. inl y;
  })
  | inr y ↦ rw y (
      ask-Prepared e p (start_ahead e r) (start_ahead_range e r ∙ k y)
        (start_ahead-IsWindowed e r (paged_ne r.prev_page (ground arith)) w))
]

pub prepare_read-Prepared :
    (s e : ℕ) (r : ReadAhead)
    → s < e
    → IsWindowed r
    → (q : Request) × (prepare_read s e r ≡ some q) × Prepared e r q
unfolding prepare_read page_cache_readahead
prepare_read-Prepared s e r h w =
    let (r', q, v, t, k) =
      readahead_at-IsWindowed r.size r.flag_incache s (e - s) r (omega arith) refl refl w in
    (set_readahead e r', rw q refl, set_readahead-Prepared e r r' t k v)

pub update_flag_incache-IsWindowed :
    (length : ℕ) (hit : Bool) (r : ReadAhead)
    → IsWindowed r
    → IsWindowed (update_flag_incache length hit r)
unfolding update_flag_incache
update_flag_incache-IsWindowed length hit r w = ground (arith, w.adjacent)

pub init-IsWindowed : IsWindowed init
init-IsWindowed = ground arith
