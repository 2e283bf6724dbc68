-- ===== src/Scheduler/Sfq/Pick.antt =====
-- The scan of `SFQ::dispatchNext`: it finds a queue with the least start tag.
use pfssim.Base.{
  ℕ, suc, ◌-◌, ◌<◌, ◌≡◌, refl, sym, inl, inr, true, false, List, [], ◌∷◌, Option, none, some, arith,
  All, Arith, IsOrder, Bool-cases, subst,
}
use native.Mathlib.Decide.{dec_lt}
use pfssim.Scheduler.Sfq.Scan.{
  interval, reverse_onto, rotation, rotation-below, visit_all, All-interval, All-append_left,
  All-reverse_onto, scan_ends,
}
use pfssim.Scheduler.Sfq.{index_of, Job, Sfq, better, visit, scan, min_index}

module _ (F : Arith) (o : IsOrder F) {A : Type 0} (q : Sfq F A) where
  open o use {lt_irrefl, lt_asymm, nlt_trans}

  -- Each first job of queue `j` has a start tag that is not below `t`.
  abbrev pub NotBefore : F.Double → ℕ → Type 0
  NotBefore t j =
      (job : Job F A) (js : List (Job F A)) → q.wait_q j ≡ job ∷ js → F.lt job.stag t ≡ false

  -- What the scan holds after it looked at some queues: all were empty, or the index of one whose
  -- first job has a least start tag among them.
  abbrev pub IsLeast : List ℕ → Option (ℕ × F.Double) → Type 0
  IsLeast is none = All (λ j. q.wait_q j ≡ []) is
  IsLeast is (some (i, t)) =
      ((job : Job F A) × (js : List (Job F A)) × (q.wait_q i ≡ job ∷ js) × (job.stag ≡ t))
      × All (NotBefore t) is

  NotBefore-empty : (t : F.Double) (j : ℕ) → q.wait_q j ≡ [] → NotBefore t j
  NotBefore-empty t j e job js f = cc

  NotBefore-front :
      (t : F.Double) (j : ℕ) (job : Job F A) (js : List (Job F A))
      → q.wait_q j ≡ job ∷ js
      → F.lt job.stag t ≡ false
      → NotBefore t j
  NotBefore-front t j job js e h job' js' f = cc

  All-NotBefore-empty :
      (t : F.Double) (is : List ℕ) → All (λ j. q.wait_q j ≡ []) is → All (NotBefore t) is
  All-NotBefore-empty t [] a = tt
  All-NotBefore-empty t (i ∷ is) a = (NotBefore-empty t i a.0, All-NotBefore-empty t is a.1)

  All-NotBefore-trans :
      (s t : F.Double) (is : List ℕ)
      → F.lt t s ≡ false
      → All (NotBefore t) is
      → All (NotBefore s) is
  All-NotBefore-trans s t [] h a = tt
  All-NotBefore-trans s t (i ∷ is) h a =
      ((λ job js e. nlt_trans s t job.stag h (a.0 job js e)), All-NotBefore-trans s t is h a.1)

  -- `visit` keeps this, with the queue that it looks at added.
  better-IsLeast :
      (i : ℕ) (is : List ℕ) (best : Option (ℕ × F.Double)) (l : List (Job F A))
      → q.wait_q i ≡ l
      → IsLeast is best
      → IsLeast (i ∷ is) (better F i l best)
  unfolding better
  better-IsLeast i is none [] e a = (e, a)
  better-IsLeast i is (some (k, t)) [] e a = (a.0, (NotBefore-empty t i e, a.1))
  better-IsLeast i is none (job ∷ js) e a = (
    (job, js, e, refl),
    (NotBefore-front job.stag i job js e (lt_irrefl job.stag), All-NotBefore-empty job.stag is a),
  )
  better-IsLeast i is (some (k, t)) (job ∷ js) e a = elim (Bool-cases (F.lt job.stag t)) [
    | inl lower ↦ rw lower (
      (job, js, e, refl),
      (
        NotBefore-front job.stag i job js e (lt_irrefl job.stag),
        All-NotBefore-trans job.stag t is (lt_asymm job.stag t lower) a.1,
      ),
    )
    | inr kept ↦ rw kept (a.0, (NotBefore-front t i job js e kept, a.1))
  ]

  visit_all-IsLeast :
      (js is : List ℕ) (best : Option (ℕ × F.Double))
      → IsLeast is best
      → IsLeast (reverse_onto js is) (visit_all F q js best)
  unfolding visit_all visit
  visit_all-IsLeast [] is best a = a
  visit_all-IsLeast (j ∷ js) is best a =
      visit_all-IsLeast js (j ∷ is) (visit F q j best)
        (better-IsLeast j is best (q.wait_q j) refl a)

  -- What `minindex` says of the queues below `appNum`.
  abbrev pub Picks : Option ℕ → Type 0
  Picks none = (j : ℕ) → j < q.app_num → q.wait_q j ≡ []
  Picks (some i) =
      (job : Job F A) × (js : List (Job F A)) × (q.wait_q i ≡ job ∷ js)
      × (i < q.app_num)
      × ((j : ℕ) → j < q.app_num → NotBefore job.stag j)

  -- The index is one of those looked at.
  abbrev Within : ℕ → Option (ℕ × F.Double) → Type 0
  Within n none = Unit
  Within n (some (i, t)) = i < n

  better-Within :
      (n i : ℕ) (l : List (Job F A)) (best : Option (ℕ × F.Double))
      → i < n
      → Within n best
      → Within n (better F i l best)
  unfolding better
  better-Within n i [] best h w = w
  better-Within n i (job ∷ js) none h w = h
  better-Within n i (job ∷ js) (some (k, t)) h w = elim (Bool-cases (F.lt job.stag t)) [
    | inl lower ↦ rw lower h
    | inr kept ↦ rw kept w
  ]

  visit_all-Within :
      (n : ℕ) (js : List ℕ) (best : Option (ℕ × F.Double))
      → All (λ j. j < n) js
      → Within n best
      → Within n (visit_all F q js best)
  unfolding visit_all visit
  visit_all-Within n [] best a w = w
  visit_all-Within n (j ∷ js) best a w =
      visit_all-Within n js (visit F q j best) a.1 (better-Within n j (q.wait_q j) best a.0 w)

  -- A property of all indices of the rotation holds below the end of the array.
  All-rotation :
      (P : ℕ → Type 0)
      → q.startpos < q.app_num
      → All P (reverse_onto (rotation F q) [])
      → (j : ℕ) → j < q.app_num
      → P j
  All-rotation P h a j k =
      let halves =
        All-append_left P (interval q.startpos (q.app_num - q.startpos)) (interval 0 q.startpos)
          (All-reverse_onto P (rotation F q) [] a).0 in
      elim (dec_lt j q.startpos) [
        | yes l ↦ All-interval F q P q.startpos 0 halves.1 j (omega arith) (omega arith)
        | no l ↦
            All-interval F q P (q.app_num - q.startpos) q.startpos halves.0 j (omega arith)
              (omega arith)
      ]

  picked_of :
      (best : Option (ℕ × F.Double))
      → q.startpos < q.app_num
      → scan F q (suc (suc q.app_num)) q.startpos true none ≡ some best
      → IsLeast (reverse_onto (rotation F q) []) best
      → Within q.app_num best
      → Picks (min_index F q)
  unfolding min_index
  picked_of none h e a w =
      subst (λ r. Picks (index_of r)) (sym e) (All-rotation (λ j. q.wait_q j ≡ []) h a)
  picked_of (some (i, t)) h e ((job, js, f, s), a) w =
      subst (λ r. Picks (index_of r)) (sym e)
        (job, js, f, w, All-rotation (NotBefore job.stag) h (rw s a))

  -- With a start position in the array, `minindex` is -1 exactly if all queues are empty, and is
  -- otherwise a queue whose first job has a least start tag.
  pub min_index-Picks : q.startpos < q.app_num → Picks (min_index F q)
  min_index-Picks h =
      picked_of (visit_all F q (rotation F q) none) h (scan_ends F q h)
        (visit_all-IsLeast (rotation F q) [] none tt)
        (visit_all-Within q.app_num (rotation F q) none (rotation-below F q h) tt)
