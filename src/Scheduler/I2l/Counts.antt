-- ===== src/Scheduler/I2l/Counts.antt =====
-- The packets that SARC (omnetpp/scheduler/I2L/SARC.cc) holds back, counted.
use pfssim.Base.{
  ℕ, zero, suc, ◌+◌, ◌≤◌, ◌<◌, ◌≡◌, refl, ap, inl, inr, Bool, false, List, Bool-cases, update, ◌==◌,
  ==_iff, count_by, count_by-append, arith,
}
use pfssim.Scheduler.I2l.{queued}

module _ {A : Type 0} (p : A → Bool) where
  queued-suc :
      (w : ℕ → List A) (n : ℕ)
      → count_by p (queued w (suc n)) ≡ count_by p (queued w n) + count_by p (w n)
  unfolding queued
  queued-suc w n = count_by-append p (queued w n) (w n)

  queued-above :
      (w : ℕ → List A) (i : ℕ) (l : List A) (n : ℕ)
      → n ≤ i
      → count_by p (queued (update w i l) n) ≡ count_by p (queued w n)
  unfolding queued
  queued-above w i l zero h = refl
  queued-above w i l (suc n) h =
      let miss : (n == i) ≡ false = ground arith in
      let same : count_by p (update w i l n) ≡ count_by p (w n) = rw miss refl in
      omega (
        arith,
        queued-suc (update w i l) n,
        queued-suc w n,
        queued-above w i l n (omega arith),
        same,
      )

  -- Writing one list changes the count by what that list gains and loses.
  pub queued-update :
      (w : ℕ → List A) (i : ℕ) (l : List A) (n : ℕ)
      → i < n
      → count_by p (queued (update w i l) n) + count_by p (w i)
        ≡ count_by p (queued w n) + count_by p l
  queued-update w i l zero h = elim h [ ]
  queued-update w i l (suc n) h = elim (Bool-cases (n == i)) [
    | inl hit ↦
        let e : n ≡ i = (==_iff n i).0 hit in
        let new : count_by p (update w i l n) ≡ count_by p l = rw hit refl in
        omega (
          arith,
          queued-suc (update w i l) n,
          queued-suc w n,
          queued-above w i l n (omega arith),
          new,
          ap (λ k. count_by p (w k)) e,
        )
    | inr miss ↦
        let same : count_by p (update w i l n) ≡ count_by p (w n) = rw miss refl in
        omega (
          arith,
          queued-suc (update w i l) n,
          queued-suc w n,
          queued-update w i l n (ground arith),
          same,
        )
  ]
