-- ===== src/Vfs/Pages.antt =====
-- The pages that VFS.cc (omnetpp/dserver/vfs) asks for, against the bytes of the request.
use native.Mathlib.Nat.{mod-eq-sub-div-mul, div-mul-le_self, lt-div-mul-add}
use pfssim.Base.{
  ℕ, ◌+◌, ◌-◌, ◌*◌, ◌/◌, ◌%◌, ◌≤◌, ◌<◌, ◌≡◌, refl, ap, ◌∙◌, inl, inr, ◌⊎◌, true, not, ◌&&◌, List,
  [], ◌∷◌, ◌++◌, ◌==◌, if◌then◌else◌, Arith, All, length, Bool-cases, arith,
}
use pfssim.Packet.{GPacket}
use pfssim.Lfs.Ext3.{PageRequest}
use pfssim.Trace.{lowoffset_range}
use pfssim.Vfs.{
  page_request, dstart, dend, has_skew, front_read, back_read, page_end_of, whole, page_requests,
}

-- The first byte of a request, and the byte after it.
abbrev pub first_byte : GPacket → ℕ
first_byte f = lowoffset_range * f.high_offset + f.low_offset

abbrev pub end_byte : GPacket → ℕ
end_byte f = first_byte f + f.size

-- What the code relies on, for this page size: a number of bytes, divided by the size, is a `double`
-- that stands for that quotient; products and sums of these stand for products and sums of bytes; the conversion to
-- `long` rounds down; and the tolerance tells a whole number of pages from any other.
pub record IsExact (F : Arith) (trunc : F.Double → ℕ) (tolerance : F.Double) (ps : ℕ) : Type 1 where
  pub StandsFor : F.Double → ℕ → Type 0
  pub divides : (n : ℕ) → StandsFor (F.div (F.of_nat n) (F.of_nat ps)) n
  pub scales : (d : F.Double) (n k : ℕ) → StandsFor d n → StandsFor (F.mul d (F.of_nat k)) (n * k)
  pub adds :
      (d e : F.Double) (n k : ℕ) → StandsFor d n → StandsFor e k → StandsFor (F.add d e) (n + k)
  pub truncates : (d : F.Double) (n : ℕ) → StandsFor d n → trunc d ≡ n / ps
  pub tells :
      (d : F.Double) (n : ℕ)
      → StandsFor d n
      → F.lt tolerance (F.sub d (F.of_nat (n / ps))) ≡ not (n % ps == 0)

-- The first page and the end of the pages, and whether they are whole.
record Counts (F : Arith) (trunc : F.Double → ℕ) (tolerance : F.Double) (ps : ℕ) : Type 0 where
  start_page : (f : GPacket) → trunc (dstart F trunc tolerance ps f) ≡ first_byte f / ps
  end_page : (f : GPacket) → trunc (dend F trunc tolerance ps f) ≡ end_byte f / ps
  start_skew :
      (f : GPacket)
      → has_skew F trunc tolerance (dstart F trunc tolerance ps f) ≡ not (first_byte f % ps == 0)
  end_skew :
      (f : GPacket)
      → has_skew F trunc tolerance (dend F trunc tolerance ps f) ≡ not (end_byte f % ps == 0)

exact-Counts :
    (F : Arith) (trunc : F.Double → ℕ) (tolerance : F.Double) (ps : ℕ)
    → IsExact F trunc tolerance ps
    → Counts F trunc tolerance ps
exact-Counts F trunc tolerance ps x = record {
  start_page = λ f. x.truncates _ _ (start f);
  end_page = λ f. x.truncates _ _ (end f);
  start_skew = λ f. skew _ _ (start f);
  end_skew = λ f. skew _ _ (end f);
}
  where
    start : (f : GPacket) → x.StandsFor (dstart F trunc tolerance ps f) (first_byte f)
    start f = x.adds _ _ _ _ (x.scales _ _ _ (x.divides lowoffset_range)) (x.divides f.low_offset)

    end : (f : GPacket) → x.StandsFor (dend F trunc tolerance ps f) (end_byte f)
    end f = x.adds _ _ _ _ (start f) (x.divides f.size)

    skew :
        (d : F.Double) (n : ℕ) → x.StandsFor d n → has_skew F trunc tolerance d ≡ not (n % ps == 0)
    skew d n h =
        ap (λ (k : ℕ). F.lt tolerance (F.sub d (F.of_nat k))) (x.truncates d n h) ∙ x.tells d n h

-- The pages of a request hold its bytes, and the first and the last page hold one at least.
pub record Covers (ps : ℕ) (f : GPacket) (r : PageRequest) : Type 0 where
  pub from : r.page_start * ps ≤ first_byte f
  pub to : end_byte f ≤ r.page_end * ps
  pub from_first : first_byte f < r.page_start * ps + ps
  pub to_last : r.page_end * ps < end_byte f + ps
  pub same : r.read ≡ f.read

-- A read of one page in which a byte lies that is not its first: so the write fills only a part.
pub record IsPartial (ps b : ℕ) (r : PageRequest) : Type 0 where
  pub reads : r.read ≡ true
  pub one : r.page_end ≡ r.page_start + 1
  pub after : r.page_start * ps < b
  pub before : b < r.page_end * ps

-- The bounds of the page of a byte.
record PageOf (ps b : ℕ) : Type 0 where
  low : b / ps * ps ≤ b
  high : b < b / ps * ps + ps
  rest : b % ps ≡ b - b / ps * ps

page_of : (ps b : ℕ) → 0 < ps → PageOf ps b
page_of ps b h = record {
  low = div-mul-le_self b ps;
  high = lt-div-mul-add h;
  rest = mod-eq-sub-div-mul b ps;
}

-- How many reads an end of a request needs: a write's, in the middle of a page, needs one.
abbrev pub needed : ℕ → GPacket → ℕ → ℕ
needed ps f b = if not f.read && not (b % ps == 0) then 1 else 0

-- The reads for one end.
abbrev pub Reads : ℕ → GPacket → ℕ → List PageRequest → Type 0
Reads ps f b rs = All (IsPartial ps b) rs × (length rs ≡ needed ps f b)

-- The request itself if it needs no read, and the reads that it needs otherwise.
abbrev pub Asks : ℕ → GPacket → List PageRequest → Type 0
Asks ps f rs =
    ((needed ps f (first_byte f) + needed ps f (end_byte f) ≡ 0)
      × ((r : PageRequest) × (rs ≡ r ∷ []) × Covers ps f r))
    ⊎ ((0 < needed ps f (first_byte f) + needed ps f (end_byte f))
        × ((fs : List PageRequest) × (bs : List PageRequest) × (rs ≡ fs ++ bs)
            × Reads ps f (first_byte f) fs
            × Reads ps f (end_byte f) bs))

module _ (F : Arith) (trunc : F.Double → ℕ) (tolerance : F.Double) (ps : ℕ) (h : 0 < ps)
    (is_exact : IsExact F trunc tolerance ps) where
  exact : Counts F trunc tolerance ps
  exact = exact-Counts F trunc tolerance ps is_exact

  front_read-Reads : (f : GPacket) → Reads ps f (first_byte f) (front_read F trunc tolerance ps f)
  unfolding front_read page_request
  front_read-Reads f =
      rw (exact.start_skew f) (elim (Bool-cases (not f.read && not (first_byte f % ps == 0))) [
        | inl e ↦
            let b = page_of ps (first_byte f) h in
            rw (e, exact.start_page f)
              (
                (
                  record {
                    reads = refl;
                    one = refl;
                    after = ground (arith, b.low, b.rest);
                    before = grind (arith, b.high);
                  },
                  tt,
                ),
                refl,
              )
        | inr e ↦ rw e (tt, refl)
      ])

  back_read-Reads : (f : GPacket) → Reads ps f (end_byte f) (back_read F trunc tolerance ps f)
  unfolding back_read page_request
  back_read-Reads f =
      rw (exact.end_skew f, exact.end_page f)
        (elim (Bool-cases (end_byte f % ps == 0)) [
          | inl e ↦ elim (Bool-cases f.read) [
            | inl r ↦ rw (e, r) (tt, refl)
            | inr r ↦ rw (e, r) (tt, refl)
          ]
          | inr e ↦ elim (Bool-cases f.read) [
            | inl r ↦ rw (e, r) (tt, refl)
            | inr r ↦
                let b = page_of ps (end_byte f) h in
                rw (e, r)
                  (
                    (
                      record {
                        reads = refl;
                        one = omega arith;
                        after = ground (arith, b.low, b.rest);
                        before = grind (arith, b.high);
                      },
                      tt,
                    ),
                    refl,
                  )
          ]
        ])

  whole-Covers :
      (f : GPacket)
      → Covers ps f (
          page_request f 0
            (trunc (dstart F trunc tolerance ps f))
            (page_end_of F trunc tolerance ps f)
            f.read)
  unfolding page_request
  whole-Covers f =
      rw (exact.start_page f, exact.end_page f, exact.end_skew f)
        (let b = page_of ps (first_byte f) h in
          let e = page_of ps (end_byte f) h in
          elim (Bool-cases (end_byte f % ps == 0)) [
            | inl t ↦ rw t record {
              from = b.low;
              to = ground (arith, e.low, e.rest);
              from_first = b.high;
              to_last = omega (arith, e.low);
              same = refl;
            }
            | inr t ↦ rw t record {
              from = b.low;
              to = grind (arith, e.high);
              from_first = b.high;
              to_last = grind (arith, e.low, e.rest);
              same = refl;
            }
          ])

  whole-Asks :
      (f : GPacket) (fs bs : List PageRequest)
      → Reads ps f (first_byte f) fs
      → Reads ps f (end_byte f) bs
      → Asks ps f (whole F trunc tolerance ps f (fs ++ bs))
  unfolding whole
  whole-Asks f [] [] a b = inl (omega (arith, a.1, b.1), (_, refl, whole-Covers f))
  whole-Asks f [] (r ∷ rs) a b = inr (omega (arith, a.1, b.1), ([], r ∷ rs, refl, a, b))
  whole-Asks f (r ∷ rs) bs a b = inr (omega (arith, a.1), (r ∷ rs, bs, refl, a, b))

  -- A request that fills its pages, or a read, becomes one request for the pages that hold its bytes,
  -- the first and the last page each with one of them at least. A write that begins or ends in the
  -- middle of a page becomes one read for each such end, of the page in which it lies: two reads of one page, where both
  -- ends lie in it. Quotients by the page size, and their products and sums, are exact in `double`.
  pub page_requests-Asks : (f : GPacket) → Asks ps f (page_requests F trunc tolerance ps f)
  unfolding page_requests
  page_requests-Asks f =
      whole-Asks f (front_read F trunc tolerance ps f) (back_read F trunc tolerance ps f)
        (front_read-Reads f) (back_read-Reads f)
