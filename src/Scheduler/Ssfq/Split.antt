-- ===== src/Scheduler/Ssfq/Split.antt =====
-- The sub-requests of a large request (omnetpp/scheduler/SFQ/SSFQ.cc).
use pfssim.Base.{
  ℕ, zero, suc, ◌+◌, ◌-◌, ◌*◌, ◌≤◌, ◌<◌, ◌≡◌, refl, subst, inl, inr, true, false, Option, none,
  some, List, [], ◌∷◌, ◌==◌, ltb, length, Bool-cases, arith,
}
use pfssim.Packet.{GPacket}
use pfssim.Client.Ids.{rid_offset}
use pfssim.Scheduler.Ssfq.{max_subreq_size, num_of, subreq, prepend, split, subreqs, offset_of}

-- A sub-request of `p` has a number in its ID, and is for the same file, application and server.
pub record IsSub (p : GPacket) (i offset : ℕ) (s : GPacket) : Type 0 where
  pub numbered : s.id ≡ p.id * rid_offset + i
  pub at : offset_of s ≡ offset
  pub same_kind : s.kind ≡ p.kind
  pub same_read : s.read ≡ p.read
  pub same_file : s.file_id ≡ p.file_id
  pub same_app : s.app ≡ p.app
  pub same_server : s.ds_id ≡ p.ds_id
  pub same_client : s.client_id ≡ p.client_id

-- Sub-requests for the bytes from `offset` to `ub`, all of the greatest size but the last.
pub Pieces : GPacket → ℕ → ℕ → ℕ → List GPacket → Type 0
Pieces p i offset ub [] = ⊥
Pieces p i offset ub (s ∷ []) =
    IsSub p i offset s × (offset + s.size ≡ ub) × (0 < s.size) × (s.size ≤ max_subreq_size)
Pieces p i offset ub (s ∷ t ∷ ss) =
    IsSub p i offset s
    × (s.size ≡ max_subreq_size)
    × Pieces p (i + 1) (offset + max_subreq_size) ub (t ∷ ss)

abbrev pub Splits : GPacket → ℕ → ℕ → ℕ → ℕ → Option (List GPacket) → Type 0
Splits p i offset ub n none = ⊥
Splits p i offset ub n (some ss) = Pieces p i offset ub ss × (length ss ≡ n)

subreq-IsSub : (p : GPacket) (i size offset : ℕ) → IsSub p i offset (subreq p i size offset)
subreq-IsSub p i size offset = record {
  numbered = refl;
  at = omega arith;
  same_kind = refl;
  same_read = refl;
  same_file = refl;
  same_app = refl;
  same_server = refl;
  same_client = refl;
}

prepend-Splits :
    (p : GPacket) (i offset ub ub' n n' : ℕ) (o : Option (List GPacket))
    → ub' ≡ ub
    → n ≡ n' + 1
    → Splits p (i + 1) (offset + max_subreq_size) ub' n' o
    → Splits p i offset ub n (prepend (subreq p i max_subreq_size offset) o)
unfolding prepend Pieces
prepend-Splits p i offset ub ub' n n' none e f h = h
prepend-Splits p i offset ub ub' n n' (some []) e f h = absurd h.0
prepend-Splits p i offset ub ub' n n' (some (s ∷ ss)) e f h = (
  (
    subreq-IsSub p i max_subreq_size offset,
    refl,
    subst (λ u. Pieces p (i + 1) (offset + max_subreq_size) u (s ∷ ss)) e h.0,
  ),
  omega (arith, h.1),
)

split-Splits :
    (fuel : ℕ) (p : GPacket) (i size offset : ℕ)
    → 0 < size
    → size < fuel
    → Splits p i offset (offset + size) (num_of size) (split fuel p i size offset)
unfolding split Pieces
split-Splits zero p i size offset s l = absurd (omega arith)
split-Splits (suc fuel) p i size offset s l = elim (Bool-cases (ltb max_subreq_size size)) [
  | inl e ↦
      rw (nonzero, e)
        (prepend-Splits p i offset (offset + size) _ (num_of size) (num_of (size - max_subreq_size))
          _ (rejoined e) (one_more e)
          (split-Splits fuel p (i + 1) (size - max_subreq_size) (offset + max_subreq_size)
            (ground arith) (omega arith)))
  | inr e ↦ rw (nonzero, e) ((subreq-IsSub p i size offset, refl, s, ground arith), ground arith)
]
  where
    nonzero : (size == 0) ≡ false
    nonzero = ground arith

    rejoined :
        ltb max_subreq_size size ≡ true
        → offset + max_subreq_size + (size - max_subreq_size) ≡ offset + size
    rejoined e = ground arith

    one_more : ltb max_subreq_size size ≡ true → num_of size ≡ num_of (size - max_subreq_size) + 1
    one_more e = ground arith

-- A request of more than 0 bytes is split into sub-requests that cover its bytes one after the other,
-- all of the greatest size but the last, which is not larger; they have consecutive IDs from 1000
-- times the request's, and there are as many as `subReqNum` records.
pub subreqs-Splits :
    (p : GPacket)
    → 0 < p.size
    → Splits p 0 (offset_of p) (offset_of p + p.size) (num_of p.size) (subreqs p)
unfolding subreqs
subreqs-Splits p s = split-Splits (suc p.size) p 0 p.size (offset_of p) s (omega arith)
