-- ===== src/Scheduler/Sfq/Counts.antt =====
-- The packets that wait in the queues of `SFQ`, counted.
use mathlib.Core.List.{map-append}
use pfssim.Base.{
  ℕ, zero, suc, ◌+◌, ◌≤◌, ◌<◌, ◌≡◌, refl, ap, sym, ◌∙◌, inl, inr, Bool, false, List, [], ◌∷◌, ◌++◌,
  map, arith, Arith, Bool-cases, update, ◌==◌, ==_iff, count_by, count_by-append, count_by-cons,
}
use pfssim.Scheduler.Sfq.{Job, retag, packets}

module _ {F : Arith} {A : Type 0} (p : A → Bool) where
  unfoldable pub count_jobs : List (Job F A) → ℕ
  count_jobs l = count_by p (map (λ j. j.pkt) l)

  packets-suc :
      (w : ℕ → List (Job F A)) (n : ℕ)
      → count_by p (packets w (suc n)) ≡ count_by p (packets w n) + count_jobs (w n)
  unfolding packets count_jobs
  packets-suc w n = count_by-append p (packets w n) (map (λ j. j.pkt) (w n))

  packets-above :
      (w : ℕ → List (Job F A)) (i : ℕ) (l : List (Job F A)) (n : ℕ)
      → n ≤ i
      → count_by p (packets (update w i l) n) ≡ count_by p (packets w n)
  unfolding packets
  packets-above w i l zero h = refl
  packets-above w i l (suc n) h =
      let miss : (n == i) ≡ false = ground arith in
      let same : count_jobs (update w i l n) ≡ count_jobs (w n) = rw miss refl in
      omega (
        arith,
        packets-suc (update w i l) n,
        packets-suc w n,
        packets-above w i l n (omega arith),
        same,
      )

  -- Writing one queue changes the count by what that queue gains and loses.
  pub packets-update :
      (w : ℕ → List (Job F A)) (i : ℕ) (l : List (Job F A)) (n : ℕ)
      → i < n
      → count_by p (packets (update w i l) n) + count_jobs (w i)
        ≡ count_by p (packets w n) + count_jobs l
  packets-update w i l zero h = elim h [ ]
  packets-update w i l (suc n) h = elim (Bool-cases (n == i)) [
    | inl hit ↦
        let e : n ≡ i = (==_iff n i).0 hit in
        let new : count_jobs (update w i l n) ≡ count_jobs l = rw hit refl in
        omega (
          arith,
          packets-suc (update w i l) n,
          packets-suc w n,
          packets-above w i l n (omega arith),
          new,
          ap (λ k. count_jobs (w k)) e,
        )
    | inr miss ↦
        let same : count_jobs (update w i l n) ≡ count_jobs (w n) = rw miss refl in
        omega (
          arith,
          packets-suc (update w i l) n,
          packets-suc w n,
          packets-update w i l n (ground arith),
          same,
        )
  ]

  pub count_jobs-append :
      (xs ys : List (Job F A)) → count_jobs (xs ++ ys) ≡ count_jobs xs + count_jobs ys
  unfolding count_jobs
  count_jobs-append xs ys =
      ap (count_by p) (map-append (λ j. j.pkt) xs ys)
      ∙ count_by-append p (map (λ j. j.pkt) xs) (map (λ j. j.pkt) ys)

  pub count_jobs-retag :
      (job : Job F A) (js : List (Job F A)) → count_jobs (retag F job js) ≡ count_jobs js
  unfolding retag count_jobs
  count_jobs-retag job [] = refl
  count_jobs-retag job (k ∷ ks) =
      count_by-cons p k.pkt (map (λ j. j.pkt) ks)
      ∙ sym (count_by-cons p k.pkt (map (λ j. j.pkt) ks))

  pub count_jobs-cons :
      (job : Job F A) (js : List (Job F A))
      → count_jobs (job ∷ js) ≡ count_by p (job.pkt ∷ []) + count_jobs js
  unfolding count_jobs
  count_jobs-cons job js = count_by-cons p job.pkt (map (λ j. j.pkt) js)

  pub count_jobs-one : (job : Job F A) → count_jobs (job ∷ []) ≡ count_by p (job.pkt ∷ [])
  unfolding count_jobs
  count_jobs-one job = refl
