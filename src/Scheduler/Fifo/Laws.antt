-- ===== src/Scheduler/Fifo/Laws.antt =====
-- `FIFO` fills the contract of a queue, and its searches agree with one another.
use pfssim.Base.{
  ◌⊎◌, inl, inr, sym, none, some, ◌++◌, Bool-cases, ℕ, ◌+◌, ◌≤◌, ◌≡◌, refl, ap, ℤ, pos, negsuc,
  Bool, List, [], ◌∷◌, arith, length, length-append, count_by, count_by-append, count_by-cons,
  count_by-nil, count_by-remove, length-remove_by-le, to_list,
}
use pfssim.Packet.{BPacket}
use pfssim.Scheduler.IQueue.{Contract, Call, pushed, run, run_conserves, accepted}
use pfssim.Scheduler.Fifo.{
  is_full, Fifo, push_wait_q, dispatch_front, dispatch_next, pop_os_q, has_id, fifo_queue,
}

abbrev Within : ℕ → ℤ → Type 0
Within n (pos d) = n ≤ d
Within n (negsuc d) = Unit

Within-mono : {m n : ℕ} (d : ℤ) → m ≤ n → Within n d → Within m d
Within-mono (pos d) le h = omega arith
Within-mono (negsuc d) le h = tt

-- No more packets are outstanding than the degree allows, where it is not negative.
abbrev pub IsBounded : {A : Type 0} → Fifo A → Type 0
IsBounded q = Within (length q.os_q) q.degree

module _ {A : Type 0} where
  dispatch_one-IsBounded :
      (d : ℤ) (ws : List A) (x : A) (xs os : List A)
      → Within (length os) d
      → IsBounded (dispatch_front (x ∷ xs) (record { degree = d; wait_q = ws; os_q = os })).1
  unfolding dispatch_front
  dispatch_one-IsBounded (pos d) ws x xs os h = ground (arith, length-append os (x ∷ []))
  dispatch_one-IsBounded (negsuc d) ws x xs os h = tt

  -- A dispatch past the guard leaves room for the packet.
  dispatch_front-IsBounded :
      (xs : List A) (q : Fifo A) → IsBounded q → IsBounded (dispatch_front xs q).1
  unfolding dispatch_front
  dispatch_front-IsBounded [] q h = h
  dispatch_front-IsBounded (x ∷ xs) q h = dispatch_one-IsBounded q.degree q.wait_q x xs q.os_q h

  dispatch_front_moves :
      (p : A → Bool) (xs : List A) (q : Fifo A)
      → xs ≡ q.wait_q
      → let (r, q') = dispatch_front xs q in
        (count_by p q.wait_q ≡ count_by p q'.wait_q + count_by p (to_list r))
        × (count_by p q'.os_q ≡ count_by p q.os_q + count_by p (to_list r))
  unfolding dispatch_front
  dispatch_front_moves p [] q e = ground (arith, count_by-nil p)
  dispatch_front_moves p (x ∷ xs) q e = ground (
    arith,
    count_by-nil p,
    count_by-cons p x xs,
    count_by-append p q.os_q (x ∷ []),
    ap (count_by p) e,
  )

  dispatch_front-cases :
      (xs : List A) (q : Fifo A)
      → xs ≡ q.wait_q
      → (dispatch_front xs q ≡ (none, q))
        ⊎ ((x : A) × (rest : List A) × (q.wait_q ≡ x ∷ rest)
            × (dispatch_front xs q ≡ (some x, record q { wait_q = rest; os_q = q.os_q ++ x ∷ [] })))
  unfolding dispatch_front
  dispatch_front-cases [] q e = inl refl
  dispatch_front-cases (x ∷ xs) q e = elim (Bool-cases (is_full q)) [
    | inl full ↦ inl (rw full refl)
    | inr room ↦ inr (x, xs, sym e, rw room refl)
  ]

  -- A dispatch does nothing, or moves the front of the wait queue.
  pub dispatch_next-cases :
      (q : Fifo A)
      → (dispatch_next q ≡ (none, q))
        ⊎ ((x : A) × (rest : List A) × (q.wait_q ≡ x ∷ rest)
            × (dispatch_next q ≡ (some x, record q { wait_q = rest; os_q = q.os_q ++ x ∷ [] })))
  unfolding dispatch_next
  dispatch_next-cases q = dispatch_front-cases q.wait_q q refl

  -- Whatever the calls are, dispatches and pops keep the bound.
  dispatch_next-IsBounded : (q : Fifo A) → IsBounded q → IsBounded (dispatch_next q).1
  unfolding dispatch_next
  dispatch_next-IsBounded q h = dispatch_front-IsBounded q.wait_q q h

module _ {A : Type 0} (b : BPacket A) where
  pub fifo_dispatch_moves :
      (p : A → Bool) (q : Fifo A)
      → let (r, q') = dispatch_next q in
        (count_by p q.wait_q ≡ count_by p q'.wait_q + count_by p (to_list r))
        × (count_by p q'.os_q ≡ count_by p q.os_q + count_by p (to_list r))
  unfolding dispatch_next
  fifo_dispatch_moves p q = dispatch_front_moves p q.wait_q q refl

  pub fifo_pop_moves :
      (p : A → Bool) (id : ℕ) (q : Fifo A)
      → let (r, q') = pop_os_q b id q in
        (count_by p q'.wait_q ≡ count_by p q.wait_q)
        × (count_by p q.os_q ≡ count_by p q'.os_q + count_by p (to_list r))
  unfolding pop_os_q
  fifo_pop_moves p id q = (refl, count_by-remove p (has_id b id) q.os_q)

  -- FIFO is a queue that keeps the contract of `IQueue` while its bound holds, for all packets.
  pub fifo_contract : Contract (fifo_queue b)
  unfolding push_wait_q dispatch_next pop_os_q
  fifo_contract = record {
    Valid = IsBounded;
    Accepts = λ a. Unit {0};
    push-Valid = λ a s ok v. v;
    dispatch-Valid = λ s v. dispatch_next-IsBounded s v;
    pop-Valid = λ id s v. Within-mono s.degree (length-remove_by-le (has_id b id) s.os_q) v;
    push_moves = λ p a s ok v. (count_by-append p s.wait_q (a ∷ []), refl);
    dispatch_moves = λ p s v. fifo_dispatch_moves p s;
    pop_moves = λ p id s v. fifo_pop_moves p id s;
  }

  pub Accepts-any : (a : A) → fifo_contract.Accepts a
  unfolding fifo_contract
  Accepts-any a = tt

  pub IsBounded-Valid : (q : Fifo A) → IsBounded q → fifo_contract.Valid q
  unfolding fifo_contract
  IsBounded-Valid q h = h

  -- Over any calls, each packet that waited, was outstanding or was pushed is popped, still waits
  -- or is still outstanding, exactly as often; and no more are outstanding than the degree allows.
  pub fifo_run_conserves :
      (p : A → Bool) (q : Fifo A) (cs : List (Call A))
      → IsBounded q
      → let o = run (fifo_queue b) q cs in
        (count_by p q.wait_q + count_by p q.os_q + count_by p (pushed cs)
          ≡ count_by p o.popped + count_by p o.state.wait_q + count_by p o.state.os_q)
        × IsBounded o.state
  unfolding fifo_contract
  fifo_run_conserves p q cs v = run_conserves (fifo_queue b) fifo_contract p q cs (accepted cs) v
