-- ===== src/Scheduler/Sfq/Scan.antt =====
-- The scan of `SFQ::dispatchNext`: it ends, and looks at every queue once.
use pfssim.Base.{
  ℕ, zero, suc, ◌+◌, ◌-◌, ◌≤◌, ◌<◌, ◌≡◌, refl, ap, sym, ◌∙◌, true, false, List, [], ◌∷◌, ◌++◌,
  Option, none, some, arith, All, Arith, subst,
}
use native.Mathlib.Decide.{dec_lt}
use pfssim.Scheduler.Sfq.{Sfq, visit, scan}

-- i, i + 1, …, i + n - 1.
abbrev pub interval : ℕ → ℕ → List ℕ
interval i zero = []
interval i (suc n) = i ∷ interval (i + 1) n

-- The visited queues pile up, last first.
abbrev pub reverse_onto : List ℕ → List ℕ → List ℕ
reverse_onto [] is = is
reverse_onto (j ∷ js) is = reverse_onto js (j ∷ is)

pub All-reverse_onto :
    (P : ℕ → Type 0) (js is : List ℕ) → All P (reverse_onto js is) → All P js × All P is
All-reverse_onto P [] is a = (tt, a)
All-reverse_onto P (j ∷ js) is a =
    let (later, all) = All-reverse_onto P js (j ∷ is) a in ((all.0, later), all.1)

All-append : (P : ℕ → Type 0) (is js : List ℕ) → All P is → All P js → All P (is ++ js)
All-append P [] js a b = b
All-append P (i ∷ is) js a b = (a.0, All-append P is js a.1 b)

pub All-append_left : (P : ℕ → Type 0) (is js : List ℕ) → All P (is ++ js) → All P is × All P js
All-append_left P [] js a = (tt, a)
All-append_left P (i ∷ is) js a =
    let (first, second) = All-append_left P is js a.1 in ((a.0, first), second)

module _ (F : Arith) {A : Type 0} (q : Sfq F A) where
  unfoldable pub visit_all : List ℕ → Option (ℕ × F.Double) → Option (ℕ × F.Double)
  visit_all [] best = best
  visit_all (i ∷ is) best = visit_all is (visit F q i best)

  visit_all-append :
      (is js : List ℕ) (best : Option (ℕ × F.Double))
      → visit_all (is ++ js) best ≡ visit_all js (visit_all is best)
  unfolding visit_all
  visit_all-append [] js best = refl
  visit_all-append (i ∷ is) js best = visit_all-append is js (visit F q i best)

  -- The second half: from a position before the start, up to the start.
  scan_second :
      (n i : ℕ) (fuel : ℕ) (best : Option (ℕ × F.Double))
      → i + n ≡ q.startpos
      → q.startpos < q.app_num
      → n < fuel
      → scan F q fuel i false best ≡ some (visit_all (interval i n) best)
  unfolding scan visit_all
  scan_second zero i zero best e h k = elim k [ ]
  scan_second zero i (suc fuel) best e h k = ground arith
  scan_second (suc n) i zero best e h k = elim k [ ]
  scan_second (suc n) i (suc fuel) best e h k =
      ground (arith, scan_second n (i + 1) fuel (visit F q i best))

  -- At the end of the array the index starts over at 0.
  scan_wrap :
      (fuel i : ℕ) (best : Option (ℕ × F.Double))
      → i ≡ q.app_num
      → q.startpos < q.app_num
      → scan F q fuel i false best ≡ scan F q fuel 0 false best
  unfolding scan
  scan_wrap zero i best e h = refl
  scan_wrap (suc fuel) i best e h = ground arith

  scan_step :
      (fuel i : ℕ) (best : Option (ℕ × F.Double))
      → i < q.app_num
      → q.startpos < i
      → scan F q (suc fuel) i false best ≡ scan F q fuel (i + 1) false (visit F q i best)
  unfolding scan
  scan_step fuel i best l h = ground arith

  scan_start :
      (fuel : ℕ) (best : Option (ℕ × F.Double))
      → q.startpos < q.app_num
      → scan F q (suc fuel) q.startpos true best
        ≡ scan F q fuel (q.startpos + 1) false (visit F q q.startpos best)
  unfolding scan
  scan_start fuel best h = ground arith

  -- The first half: from a position past the start, up to the end of the array.
  scan_first :
      (n i : ℕ) (fuel : ℕ) (best : Option (ℕ × F.Double))
      → i + n ≡ q.app_num
      → q.startpos < i
      → q.startpos < q.app_num
      → n + q.startpos < fuel
      → scan F q fuel i false best
        ≡ some (visit_all (interval 0 q.startpos) (visit_all (interval i n) best))
  unfolding visit_all
  scan_first zero i fuel best e l h k =
      scan_wrap fuel i best (omega arith) h
      ∙ scan_second q.startpos 0 fuel best (omega arith) h (omega arith)
  scan_first (suc n) i zero best e l h k = elim k [ ]
  scan_first (suc n) i (suc fuel) best e l h k =
      scan_step fuel i best (omega arith) l
      ∙ scan_first n (i + 1) fuel (visit F q i best) (omega arith) (omega arith) h (omega arith)

  scan_count :
      (n : ℕ)
      → q.startpos + suc n ≡ q.app_num
      → scan F q (suc (suc q.app_num)) q.startpos true none
        ≡ some (visit_all (interval q.startpos (suc n) ++ interval 0 q.startpos) none)
  unfolding visit_all
  scan_count n e =
      scan_start (suc q.app_num) none (omega arith)
      ∙ scan_first n (q.startpos + 1) (suc q.app_num) (visit F q q.startpos none) (omega arith)
          (omega arith) (omega arith) (omega arith)
      ∙ ap some (sym (visit_all-append (interval (q.startpos + 1) n) (interval 0 q.startpos) _))

  -- The order in which the queues are looked at.
  abbrev pub rotation : List ℕ
  rotation = interval q.startpos (q.app_num - q.startpos) ++ interval 0 q.startpos

  -- The loop ends, and has then looked at each queue once, from the start position on.
  pub scan_ends :
      q.startpos < q.app_num
      → scan F q (suc (suc q.app_num)) q.startpos true none ≡ some (visit_all rotation none)
  scan_ends h =
      let n : ℕ = q.app_num - q.startpos - 1 in
      let e : suc n ≡ q.app_num - q.startpos = omega arith in
      subst
        (λ k.
          scan F q (suc (suc q.app_num)) q.startpos true none
          ≡ some (visit_all (interval q.startpos k ++ interval 0 q.startpos) none))
        e (scan_count n (omega arith))

  interval-below : (n i m : ℕ) → i + n ≤ m → All (λ j. j < m) (interval i n)
  interval-below zero i m h = tt
  interval-below (suc n) i m h = (omega arith, interval-below n (i + 1) m (omega arith))

  pub rotation-below : q.startpos < q.app_num → All (λ j. j < q.app_num) rotation
  rotation-below h =
      All-append (λ j. j < q.app_num) (interval q.startpos (q.app_num - q.startpos))
        (interval 0 q.startpos)
        (interval-below (q.app_num - q.startpos) q.startpos q.app_num (omega arith))
        (interval-below q.startpos 0 q.app_num (omega arith))

  -- Every index below the end of the array is in the rotation.
  pub All-interval :
      (P : ℕ → Type 0) (n i : ℕ) → All P (interval i n) → (j : ℕ) → i ≤ j → j < i + n → P j
  All-interval P zero i a j h k = absurd (omega arith)
  All-interval P (suc n) i a j h k = elim (dec_lt i j) [
    | yes l ↦ All-interval P n (i + 1) a.1 j (omega arith) (omega arith)
    | no l ↦ let e : i ≡ j = omega arith in subst P e a.0
  ]
