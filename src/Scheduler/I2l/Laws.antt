-- ===== src/Scheduler/I2l/Laws.antt =====
-- What SARC and I2L (omnetpp/scheduler/I2L) keep: no packet is lost between the two levels.
use pfssim.Base.{
  ℕ, zero, suc, ◌+◌, ◌≤◌, ◌<◌, ◌≡◌, refl, ap, subst, inl, inr, ◌⊎◌, Bool, Option, some, List, [],
  ◌∷◌, ◌++◌, Arith, update, Bool-cases, ◌==◌, All, count_by, count_by-cons, count_by-nil, to_list,
  arith,
}
use pfssim.Packet.{BPacket}
use pfssim.Scheduler.I2l.{Sarc, queued, has_token, try_queue, try_from, try_to_dispatch}
use pfssim.Scheduler.I2l.Counts.{queued-update}

module _ {A : Type 0} (Ok : A → Type 0) where
  -- Everything in the lists is accepted.
  abbrev pub AllIn : (ℕ → List A) → Type 0
  AllIn w = (i : ℕ) → All Ok (w i)

  pub update-AllIn :
      (w : ℕ → List A) (i : ℕ) (l : List A) → AllIn w → All Ok l → AllIn (update w i l)
  update-AllIn w i l h k j = elim (Bool-cases (j == i)) [ inl e ↦ rw e k | inr e ↦ rw e (h j) ]

  pub All-snoc : (l : List A) (p : A) → All Ok l → Ok p → All Ok (l ++ p ∷ [])
  All-snoc [] p h k = (k, tt)
  All-snoc (x ∷ xs) p h k = (h.0, All-snoc xs p h.1 k)

module _ (F : Arith) {A : Type 0} (b : BPacket A) (Ok : A → Type 0) where
  -- What `tryToDispatch` does: nothing where no queue has a front with a token, and otherwise a
  -- packet leaves SARC.
  pub record Tried (s : Sarc F A) (o : Option A) (s' : Sarc F A) : Type 0 where
    pub same_num : s'.app_num ≡ s.app_num
    pub all_ok : AllIn Ok s'.req_q
    pub ok : All Ok (to_list o)
    pub unmoved : ((p : A) × (o ≡ some p)) ⊎ (s' ≡ s)
    pub moved :
        (p : A → Bool)
        → count_by p (queued s.req_q s.app_num)
          ≡ count_by p (queued s'.req_q s.app_num) + count_by p (to_list o)

  try_queue-Tried :
      (s : Sarc F A) (i : ℕ) (l : List A) (r : Option A × Sarc F A)
      → i < s.app_num
      → s.req_q i ≡ l
      → AllIn Ok s.req_q
      → Tried s r.0 r.1
      → Tried s (try_queue F b s i l r).0 (try_queue F b s i l r).1
  unfolding try_queue
  try_queue-Tried s i [] r h e a t = t
  try_queue-Tried s i (p ∷ ps) r h e a t = elim (Bool-cases (has_token F b s p)) [
    | inl f ↦ rw f record {
      same_num = refl;
      all_ok = update-AllIn Ok s.req_q i ps a front.1;
      ok = (front.0, tt);
      unmoved = inl (p, refl);
      moved = λ c. omega (
        arith,
        queued-update c s.req_q i ps s.app_num h,
        ap (count_by c) e,
        count_by-cons c p ps,
      );
    }
    | inr f ↦ rw f t
  ]
    where
      front : All Ok (p ∷ ps)
      front = subst (All Ok) e (a i)

  try_from-Tried :
      (s : Sarc F A) (n i : ℕ)
      → i + n ≤ s.app_num
      → AllIn Ok s.req_q
      → Tried s (try_from F b s n i).0 (try_from F b s n i).1
  unfolding try_from
  try_from-Tried s zero i h a = record {
    same_num = refl;
    all_ok = a;
    ok = tt;
    unmoved = inr refl;
    moved = λ c. omega (arith, count_by-nil c);
  }
  try_from-Tried s (suc n) i h a =
      try_queue-Tried s i (s.req_q i) (try_from F b s n (i + 1)) (omega arith) refl a
        (try_from-Tried s n (i + 1) (omega arith) a)

  pub try_to_dispatch-Tried :
      (s : Sarc F A)
      → AllIn Ok s.req_q
      → Tried s (try_to_dispatch F b s).0 (try_to_dispatch F b s).1
  unfolding try_to_dispatch
  try_to_dispatch-Tried s a = try_from-Tried s s.app_num 0 (omega arith) a
