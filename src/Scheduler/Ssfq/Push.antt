-- ===== src/Scheduler/Ssfq/Push.antt =====
-- A large request at SSFQ (omnetpp/scheduler/SFQ/SSFQ.cc), over any queue below.
use pfssim.Base.{
  ℕ, ◌+◌, ◌≤◌, ◌<◌, ◌≡◌, refl, ap, true, Option, none, some, List, ◌∷◌, ltb, if◌then◌else◌, find_by,
  find_by_absent, count_by, ==_refl, length, arith,
}
use pfssim.Packet.{GPacket}
use pfssim.Scheduler.IQueue.{IQueue}
use pfssim.Scheduler.Ssfq.{
  max_subreq_size, has_key, insert, Ssfq, push_all, push_large, push_wait_q, num_of, subreqs,
  offset_of,
}
use pfssim.Scheduler.Ssfq.Split.{Pieces, Splits, subreqs-Splits}
use pfssim.Scheduler.Ssfq.Join.{Waits}

insert_new :
    {V : Type 0} (id : ℕ) (v : V) (m : List (ℕ × V))
    → count_by (has_key id) m ≡ 0
    → insert id v m ≡ (id, v) ∷ m
unfolding insert
insert_new id v m h = rw (find_by_absent (has_key id) m h) refl

count-insert_new :
    {V : Type 0} (id : ℕ) (v : V) (m : List (ℕ × V))
    → count_by (has_key id) m ≡ 0
    → count_by (has_key id) ((id, v) ∷ m) ≤ 1
unfolding count_by
count-insert_new id v m h = omega (arith, ap {B = ℕ} (λ b. if b then 1 else 0) (==_refl id))

find_by-insert_new :
    {V : Type 0} (id : ℕ) (v : V) (m : List (ℕ × V))
    → find_by (has_key id) ((id, v) ∷ m) ≡ some (id, v)
unfolding find_by
find_by-insert_new id v m = rw (==_refl id) refl

module _ (q : IQueue GPacket) where
  -- The queue below has taken the pieces of the request, which waits for that many.
  pub record Pushed (p : GPacket) (s s' : Ssfq q) : Type 0 where
    pub pieces : List GPacket
    pub cover : Pieces p 0 (offset_of p) (offset_of p + p.size) pieces
    pub taken : s'.base ≡ push_all q pieces s.base
    pub waits : Waits q p.id (length pieces) p s'

  abbrev pub Takes : GPacket → Ssfq q → Option (Ssfq q) → Type 0
  Takes p s none = ⊥
  Takes p s (some s') = Pushed p s s'

  push_large-Takes :
      (p : GPacket) (s : Ssfq q) (o : Option (List GPacket))
      → count_by (has_key p.id) s.sub_req_num ≡ 0
      → count_by (has_key p.id) s.req_list ≡ 0
      → Splits p 0 (offset_of p) (offset_of p + p.size) (num_of p.size) o
      → Takes p s (push_large q p o s)
  unfolding push_large
  push_large-Takes p s none a b h = h
  push_large-Takes p s (some ss) a b h =
      rw (insert_new p.id (some (num_of p.size)) s.sub_req_num a, insert_new p.id p s.req_list b)
        record {
          pieces = ss;
          cover = h.0;
          taken = refl;
          waits = record {
            once = count-insert_new p.id (some (num_of p.size)) s.sub_req_num a;
            counts = rw h.1 (find_by-insert_new p.id (some (num_of p.size)) s.sub_req_num);
            listed_once = count-insert_new p.id p s.req_list b;
            listed = find_by-insert_new p.id p s.req_list;
          };
        }

  -- A request that is too large, with an ID that nothing waits for, goes to the queue below in
  -- sub-requests with consecutive IDs, which cover its bytes one after the other, all of the greatest
  -- size but the last, which is not larger; and the request waits for exactly so many.
  pub push_wait_q-Takes :
      (p : GPacket) (s : Ssfq q)
      → max_subreq_size < p.size
      → count_by (has_key p.id) s.sub_req_num ≡ 0
      → count_by (has_key p.id) s.req_list ≡ 0
      → Takes p s (push_wait_q q p s)
  unfolding push_wait_q
  push_wait_q-Takes p s l a b =
      rw large (push_large-Takes p s (subreqs p) a b (subreqs-Splits p (omega arith)))
    where
      large : ltb max_subreq_size p.size ≡ true
      large = ground arith
