-- ===== src/Scheduler/Fifo/Drain.antt =====
-- Loops that dispatch from a FIFO queue until it gives out nothing.
use mathlib.Core.List.{append-nil, append_assoc}
use pfssim.Base.{
  ◌≡◌, refl, ap, sym, ◌∙◌, inl, inr, ◌⊎◌, none, some, List, [], ◌∷◌, ◌++◌, Bool-cases,
}
use pfssim.Scheduler.Fifo.{Fifo, dispatch_next, is_full}

module _ {A : Type 0} where
  -- A queue after the front of its wait queue was dispatched.
  abbrev pub moved : Fifo A → A → List A → Fifo A
  moved q p w = record q { wait_q = w; os_q = q.os_q ++ p ∷ [] }

  abbrev pub DispatchCases : Fifo A → Type 0
  DispatchCases q =
      (dispatch_next q ≡ (none, q))
      ⊎ ((p : A) × (w : List A) × (q.wait_q ≡ p ∷ w) × (dispatch_next q ≡ (some p, moved q p w)))

  pub dispatch_next-cases : (q : Fifo A) → DispatchCases q
  unfolding dispatch_next
  dispatch_next-cases q = go q.wait_q refl
    where
      go : (w : List A) → q.wait_q ≡ w → DispatchCases q
      go [] e = inl (rw e refl)
      go (p ∷ w) e = elim (Bool-cases (is_full q)) [
        | inl f ↦ inl (rw (e, f) refl)
        | inr f ↦ inr (p, w, e, rw (e, f) refl)
      ]

  -- The packets that went out waited first, in this order, and are outstanding after the others; and
  -- the queue gives out no more.
  pub record Drained (q : Fifo A) (goes : List A) (q' : Fifo A) : Type 0 where
    pub in_order : q.wait_q ≡ goes ++ q'.wait_q
    pub out : q'.os_q ≡ q.os_q ++ goes
    pub ended : (dispatch_next q').0 ≡ none

  pub nothing-Drained : (q : Fifo A) → dispatch_next q ≡ (none, q) → Drained q [] q
  nothing-Drained q n = record {
    in_order = refl;
    out = sym (append-nil q.os_q);
    ended = ap (λ a. a.0) n;
  }

  pub moved-Drained :
      (q q' : Fifo A) (p : A) (w goes : List A)
      → q.wait_q ≡ p ∷ w
      → Drained (moved q p w) goes q'
      → Drained q (p ∷ goes) q'
  moved-Drained q q' p w goes e h = record {
    in_order = e ∙ ap (λ a. p ∷ a) h.in_order;
    out = h.out ∙ append_assoc q.os_q (p ∷ []) goes;
    ended = h.ended;
  }
