-- ===== src/Scheduler/Ssfq/Join.antt =====
-- The return of a request that was split (omnetpp/scheduler/SFQ/SSFQ.cc), over any queue below.
use pfssim.Base.{
  ℕ, suc, ◌+◌, ◌-◌, ◌/◌, ◌≤◌, ◌<◌, ◌≡◌, refl, ap, subst, false, Option, none, some, List, [], ◌∷◌,
  ◌==◌, if◌then◌else◌, find_by, remove_by, count_by, count_by-remove, find_by-remove_by_self,
  to_list, ==_refl, All, length, arith,
}
use pfssim.Packet.{GPacket}
use pfssim.Client.Ids.{rid_offset}
use pfssim.Scheduler.IQueue.{IQueue}
use pfssim.Scheduler.Ssfq.{
  has_key, insert, Ssfq, Popped, give_back, counted, with_count, popped, pop_os_q,
}

module _ {V : Type 0} where
  find_by-remove-none :
      (id : ℕ) (m : List (ℕ × V))
      → count_by (has_key id) m ≤ 1
      → find_by (has_key id) (remove_by (has_key id) m) ≡ none
  find_by-remove-none id m h = find_by-remove_by_self (has_key id) m h

  count-remove :
      (id : ℕ) (v : V) (m : List (ℕ × V))
      → count_by (has_key id) m ≤ 1
      → find_by (has_key id) m ≡ some (id, v)
      → count_by (has_key id) (remove_by (has_key id) m) ≡ 0
  unfolding count_by
  count-remove id v m h f = omega (
    arith,
    count_by-remove (has_key id) (has_key id) m,
    ap (λ o. count_by (has_key id) (to_list o)) f,
    ap (λ b. (if b then 1 else 0) + 0) (==_refl id),
  )

module _ (q : IQueue GPacket) where
  with_popped :
      Option GPacket
      → Option (List (Option GPacket) × Ssfq q)
      → Option (List (Option GPacket) × Ssfq q)
  with_popped o none = none
  with_popped o (some (os, s)) = some (o ∷ os, s)

  and_then :
      Popped q
      → (Ssfq q → Option (List (Option GPacket) × Ssfq q))
      → Option (List (Option GPacket) × Ssfq q)
  unfolding with_popped
  and_then none k = none
  and_then (some (o, s)) k = with_popped o (k s)

  -- What a run of pops gives back.
  unfoldable pub pop_all : List ℕ → Ssfq q → Option (List (Option GPacket) × Ssfq q)
  unfolding and_then
  pop_all [] s = some ([], s)
  pop_all (x ∷ xs) s = and_then (pop_os_q q x s) (pop_all xs)

  -- The queue below finds each of the sub-requests in its turn.
  unfoldable pub FindsAll : List ℕ → q.State → Type 0
  FindsAll [] b = Unit
  FindsAll (x ∷ xs) b =
      ((r : GPacket) × ((q.pop_os_q x b).0 ≡ some r)) × FindsAll xs (q.pop_os_q x b).1

  -- The request `p` waits for `n` sub-requests.
  pub record Waits (id n : ℕ) (p : GPacket) (s : Ssfq q) : Type 0 where
    pub once : count_by (has_key id) s.sub_req_num ≤ 1
    pub counts : find_by (has_key id) s.sub_req_num ≡ some (id, some n)
    pub listed_once : count_by (has_key id) s.req_list ≤ 1
    pub listed : find_by (has_key id) s.req_list ≡ some (id, p)

  -- Nothing of the request is left.
  pub record Gone (id : ℕ) (s : Ssfq q) : Type 0 where
    pub not_counted : find_by (has_key id) s.sub_req_num ≡ none
    pub not_listed : find_by (has_key id) s.req_list ≡ none

  abbrev after_pop : ℕ → ℕ → ℕ → Ssfq q → Ssfq q
  after_pop x id n s = record s {
    base = (q.pop_os_q x s.base).1;
    sub_req_num = (id, some (n - 1)) ∷ remove_by (has_key id) s.sub_req_num;
  }

  pop_os_q-more :
      (x id n : ℕ) (p r : GPacket) (s : Ssfq q)
      → x / rid_offset ≡ id
      → 1 < n
      → (q.pop_os_q x s.base).0 ≡ some r
      → Waits id n p s
      → pop_os_q q x s ≡ some (none, after_pop x id n s)
  unfolding pop_os_q popped with_count counted insert
  pop_os_q-more x id n p r s i l f w =
      rw (f, i, w.counts) (rw (more, find_by-remove-none id s.sub_req_num w.once) refl)
    where
      more : (n == 1) ≡ false
      more = ground arith

  after_pop-Waits :
      (x id n : ℕ) (p : GPacket) (s : Ssfq q)
      → Waits id n p s
      → Waits id (n - 1) p (after_pop x id n s)
  unfolding count_by find_by
  after_pop-Waits x id n p s w = record {
    once = omega (
      arith,
      count-remove id (some n) s.sub_req_num w.once w.counts,
      ap {B = ℕ} (λ b. if b then 1 else 0) (==_refl id),
    );
    counts = rw (==_refl id) refl;
    listed_once = w.listed_once;
    listed = w.listed;
  }

  abbrev last_state : ℕ → ℕ → Ssfq q → Ssfq q
  last_state x id s = record {
    base = (q.pop_os_q x s.base).1;
    sub_req_num = remove_by (has_key id) s.sub_req_num;
    req_list = remove_by (has_key id) s.req_list;
  }

  pop_os_q-last :
      (x id : ℕ) (p r : GPacket) (s : Ssfq q)
      → x / rid_offset ≡ id
      → (q.pop_os_q x s.base).0 ≡ some r
      → Waits id 1 p s
      → pop_os_q q x s ≡ some (some p, last_state x id s)
  unfolding pop_os_q popped with_count counted give_back
  pop_os_q-last x id p r s i f w = rw (f, i, w.counts) (rw w.listed refl)

  last_state-Gone :
      (x id : ℕ) (p : GPacket) (s : Ssfq q) → Waits id 1 p s → Gone id (last_state x id s)
  last_state-Gone x id p s w = record {
    not_counted = find_by-remove-none id s.sub_req_num w.once;
    not_listed = find_by-remove-none id s.req_list w.listed_once;
  }

  -- Nothing comes back but `p`, with the last pop.
  pub LastIs : GPacket → List (Option GPacket) → Type 0
  LastIs p [] = ⊥
  LastIs p (o ∷ []) = o ≡ some p
  LastIs p (o ∷ o' ∷ os) = (o ≡ none) × LastIs p (o' ∷ os)

  abbrev pub Joins : ℕ → GPacket → Option (List (Option GPacket) × Ssfq q) → Type 0
  Joins id p none = ⊥
  Joins id p (some (os, s)) = LastIs p os × Gone id s

  with_popped-Joins :
      (id : ℕ) (p : GPacket) (o : Option (List (Option GPacket) × Ssfq q))
      → Joins id p o
      → Joins id p (with_popped none o)
  unfolding with_popped LastIs
  with_popped-Joins id p none h = h
  with_popped-Joins id p (some ([], s)) h = absurd h.0
  with_popped-Joins id p (some (o ∷ os, s)) h = ((refl, h.0), h.1)

  -- A request that was split comes back when the last of its sub-requests is popped, whatever their
  -- order, and not before; nothing of it is left then. The request waits for as many sub-requests as
  -- are popped, 1 at least, under no other entry of its ID, and the queue below finds each.
  pub pop_all-Joins :
      (x id : ℕ) (xs : List ℕ) (p : GPacket) (s : Ssfq q)
      → All (λ x. x / rid_offset ≡ id) (x ∷ xs)
      → FindsAll (x ∷ xs) s.base
      → Waits id (length (x ∷ xs)) p s
      → Joins id p (pop_all (x ∷ xs) s)
  unfolding pop_all and_then FindsAll LastIs
  pop_all-Joins x id [] p s i f w =
      rw (pop_os_q-last x id p f.0.0 s i.0 f.0.1 w) (refl, last_state-Gone x id p s w)
  pop_all-Joins x id (y ∷ xs) p s i f w =
      rw (pop_os_q-more x id (length (x ∷ y ∷ xs)) p f.0.0 s i.0 (omega arith) f.0.1 w) (
        with_popped-Joins id p _ (
          pop_all-Joins y id xs p (after_pop x id (length (x ∷ y ∷ xs)) s) i.1 f.1 (
            subst (λ n. Waits id n p (after_pop x id (length (x ∷ y ∷ xs)) s)) (fewer xs)
              (after_pop-Waits x id (length (x ∷ y ∷ xs)) p s w))))
    where
      fewer : (zs : List ℕ) → suc (suc (length zs)) - 1 ≡ suc (length zs)
      fewer zs = omega arith
