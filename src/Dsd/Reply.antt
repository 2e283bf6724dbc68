-- ===== src/Dsd/Reply.antt =====
-- `handleReadDataResp` (omnetpp/dserver/dsd/DSD_M.cc): an answer goes to the client in packets of
-- limited size. Sizes are not negative.
use mathlib.Core.List.{append-nil}
use pfssim.Base.{
  ℕ, zero, suc, ◌+◌, ◌-◌, ◌≤◌, ◌<◌, ◌≡◌, refl, sym, subst, inl, inr, Bool, true, false, not, ◌&&◌,
  Option, none, some, List, [], ◌∷◌, ◌++◌, ◌==◌, leb, if◌then◌else◌, find_by, remove_by, Bool-cases,
  arith,
}
use pfssim.Packet.{Kind, GPacket, pfs_r_data, pfs_r_data_last}
use pfssim.Dsd.{subreq_offset}
use pfssim.Dsd.Serve.{Answers}

prepend : GPacket → Option (List GPacket) → Option (List GPacket)
prepend p none = none
prepend p (some ps) = some (p ∷ ps)

abbrev piece : ℕ → GPacket → ℕ → ℕ → GPacket
piece limit p id loff = record p { id = id; kind = pfs_r_data; size = limit; low_offset = loff }

-- The loop for a read, on fuel; `none` means that the fuel ran out.
split_resp : ℕ → ℕ → GPacket → ℕ → ℕ → ℕ → Option (List GPacket)
unfolding prepend
split_resp limit zero p id size loff = none
split_resp limit (suc fuel) p id size loff =
    let rest = split_resp limit fuel p (id + subreq_offset) (size - limit) (loff + limit) in
    if size == 0
    then some []
    else if leb size limit
    then some (record p { size = size; low_offset = loff } ∷ [])
    else prepend (piece limit p id loff) rest

-- `readPktIDMap`, with its keys: the ID that the packets of an answer follow.
abbrev pub IdMap : Type 0
IdMap = List (ℕ × ℕ)

abbrev has_id : ℕ → ℕ × ℕ → Bool
has_id id e = e.0 == id

abbrev start_id : ℕ → Option (ℕ × ℕ) → ℕ
start_id id none = id
start_id id (some e) = e.1

abbrev recorded : ℕ → IdMap → Option (ℕ × ℕ) → IdMap
recorded id m none = (id, id) ∷ m
recorded id m (some e) = m

abbrev is_last : Kind → Bool
is_last pfs_r_data_last = true
is_last _ = false

-- The last packet of a request takes its entry away.
abbrev erased : GPacket → IdMap → IdMap
erased p m = if not (p.size == 0) && is_last p.kind then remove_by (has_id p.id) m else m

with_map : IdMap → Option (List GPacket) → Option (List GPacket × IdMap)
with_map m none = none
with_map m (some ps) = some (ps, m)

resp_of : ℕ → GPacket → IdMap → Option (ℕ × ℕ) → Bool → Option (List GPacket × IdMap)
unfolding with_map split_resp
resp_of limit p m found true =
    with_map (erased p (recorded p.id m found))
      (split_resp limit (suc p.size) p (start_id p.id found + subreq_offset) p.size p.low_offset)
resp_of limit p m found false = some (p ∷ [], recorded p.id m found)

-- The packets that go out, and the map after it; the fuel is shown to be enough.
unfoldable pub read_data_resp : ℕ → GPacket → IdMap → Option (List GPacket × IdMap)
unfolding resp_of
read_data_resp limit p m = resp_of limit p m (find_by (has_id p.id) m) p.read

joined : List GPacket → Option (List GPacket × IdMap) → Option (List GPacket × IdMap)
joined ps none = none
joined ps (some (qs, m)) = some (ps ++ qs, m)

and_then :
    Option (List GPacket × IdMap)
    → (IdMap → Option (List GPacket × IdMap))
    → Option (List GPacket × IdMap)
unfolding joined
and_then none k = none
and_then (some (ps, m)) k = joined ps (k m)

-- The packets for several answers.
unfoldable pub replies : ℕ → List GPacket → IdMap → Option (List GPacket × IdMap)
unfolding and_then
replies limit [] m = some ([], m)
replies limit (p ∷ ps) m = and_then (read_data_resp limit p m) (replies limit ps)

-- Packets within a limit that cover a range one after the other and are not marked as the last,
-- but for the kind of the very last.
pub Covers : Kind → ℕ → ℕ → ℕ → List GPacket → Type 0
Covers k limit ub loff [] = ⊥
Covers k limit ub loff (p ∷ []) =
    (p.low_offset ≡ loff) × (loff + p.size ≡ ub) × (p.size ≤ limit) × (p.kind ≡ k)
Covers k limit ub loff (p ∷ q ∷ ps) =
    (p.low_offset ≡ loff)
    × (p.size ≤ limit)
    × (p.kind ≡ pfs_r_data)
    × Covers k limit ub (loff + p.size) (q ∷ ps)

Covers-append :
    (k : Kind) (limit ub mid loff : ℕ) (ps qs : List GPacket)
    → Covers pfs_r_data limit mid loff ps
    → Covers k limit ub mid qs
    → Covers k limit ub loff (ps ++ qs)
unfolding Covers
Covers-append k limit ub mid loff ps [] h g = absurd g
Covers-append k limit ub mid loff [] (q ∷ qs) h g = absurd h
Covers-append k limit ub mid loff (p ∷ []) (q ∷ qs) h g =
    (h.0, h.2, h.3, subst (λ l. Covers k limit ub l (q ∷ qs)) (sym h.1) g)
Covers-append k limit ub mid loff (p ∷ r ∷ ps) (q ∷ qs) h g =
    (h.0, h.1, h.2, Covers-append k limit ub mid (loff + p.size) (r ∷ ps) (q ∷ qs) h.3 g)

abbrev CoversAll : Kind → ℕ → ℕ → ℕ → Option (List GPacket) → Type 0
CoversAll k limit ub loff none = ⊥
CoversAll k limit ub loff (some ps) = Covers k limit ub loff ps

prepend-Covers :
    (limit ub id loff : ℕ) (p : GPacket) (o : Option (List GPacket))
    → CoversAll p.kind limit ub (loff + limit) o
    → CoversAll p.kind limit ub loff (prepend (piece limit p id loff) o)
unfolding prepend Covers
prepend-Covers limit ub id loff p none h = h
prepend-Covers limit ub id loff p (some []) h = absurd h
prepend-Covers limit ub id loff p (some (q ∷ ps)) h = (refl, omega arith, refl, h)

split_resp-Covers :
    (limit fuel : ℕ) (p : GPacket) (id size loff : ℕ)
    → 0 < limit
    → 0 < size
    → size < fuel
    → CoversAll p.kind limit (loff + size) loff (split_resp limit fuel p id size loff)
unfolding split_resp Covers
split_resp-Covers limit zero p id size loff l s f = absurd (omega arith)
split_resp-Covers limit (suc fuel) p id size loff l s f = elim (Bool-cases (leb size limit)) [
  | inl e ↦ rw (nonzero, e) (refl, refl, ground arith, refl)
  | inr e ↦
      rw (nonzero, e)
        (prepend-Covers limit (loff + size) id loff p _ (
          subst
            (λ ub.
              CoversAll p.kind limit ub (loff + limit)
                (split_resp limit fuel p (id + subreq_offset) (size - limit) (loff + limit)))
            (ground arith)
            (split_resp-Covers limit fuel p (id + subreq_offset) (size - limit) (loff + limit) l
              (ground arith) (omega arith))))
]
  where
    nonzero : (size == 0) ≡ false
    nonzero = ground arith

-- What the answers to a read become.
abbrev pub Covered : ℕ → ℕ → ℕ → Option (List GPacket × IdMap) → Type 0
Covered limit ub loff none = ⊥
Covered limit ub loff (some (ps, m)) = Covers pfs_r_data_last limit ub loff ps

-- What one answer becomes.
abbrev Sent : Kind → ℕ → ℕ → ℕ → Option (List GPacket × IdMap) → Type 0
Sent k limit ub loff none = ⊥
Sent k limit ub loff (some (ps, m)) = Covers k limit ub loff ps

with_map-Sent :
    (k : Kind) (limit ub loff : ℕ) (m : IdMap) (o : Option (List GPacket))
    → CoversAll k limit ub loff o
    → Sent k limit ub loff (with_map m o)
unfolding with_map
with_map-Sent k limit ub loff m none h = h
with_map-Sent k limit ub loff m (some ps) h = h

read_data_resp-Sent :
    (limit ub loff : ℕ) (k : Kind) (p : GPacket) (m : IdMap)
    → 0 < limit
    → p.kind ≡ k
    → p.low_offset ≡ loff
    → loff + p.size ≡ ub
    → loff < ub
    → p.read ≡ true
    → Sent k limit ub loff (read_data_resp limit p m)
unfolding read_data_resp resp_of
read_data_resp-Sent limit ub loff k p m l e low end n r =
    subst (λ b. Sent k limit ub loff (resp_of limit p m found b)) (sym r)
      (subst (λ k. Sent k limit ub loff (resp_of limit p m found true)) e
        (subst (λ o. Sent p.kind limit ub o (resp_of limit p m found true)) low
          (subst (λ u. Sent p.kind limit u p.low_offset (resp_of limit p m found true))
            (omega arith)
            (with_map-Sent p.kind limit _ p.low_offset _ _ (
              split_resp-Covers limit (suc p.size) p _ p.size p.low_offset l (omega arith)
                (omega arith))))))
  where
    found : Option (ℕ × ℕ)
    found = find_by (has_id p.id) m

last-Covered :
    (limit ub loff : ℕ) (o : Option (List GPacket × IdMap))
    → Sent pfs_r_data_last limit ub loff o
    → Covered limit ub loff (and_then o (λ m. some ([], m)))
unfolding and_then joined
last-Covered limit ub loff none h = h
last-Covered limit ub loff (some (ps, m)) h =
    subst (Covers pfs_r_data_last limit ub loff) (sym (append-nil ps)) h

joined-Covered :
    (limit ub mid loff : ℕ) (o : Option (List GPacket × IdMap))
    (k : IdMap → Option (List GPacket × IdMap))
    → Sent pfs_r_data limit mid loff o
    → ((m : IdMap) → Covered limit ub mid (k m))
    → Covered limit ub loff (and_then o k)
unfolding and_then joined
joined-Covered limit ub mid loff none k h g = h
joined-Covered limit ub mid loff (some (ps, m)) k h g = go (k m) (g m)
  where
    go :
        (r : Option (List GPacket × IdMap))
        → Covered limit ub mid r
        → Covered limit ub loff (joined ps r)
    go none c = c
    go (some (qs, m')) c = Covers-append pfs_r_data_last limit ub mid loff ps qs h c

-- The answers to a read of more than 0 bytes go to the client in packets that cover the range of the
-- read one after the other: no packet is larger than the limit of a packet, and the last alone is
-- marked as the last. The limits are not 0.
pub replies-Covers :
    (sub limit ub id loff : ℕ) (ps : List GPacket) (m : IdMap)
    → 0 < sub
    → 0 < limit
    → loff < ub
    → Answers sub ub id loff ps
    → Covered limit ub loff (replies limit ps m)
unfolding replies Answers
replies-Covers sub limit ub id loff [] m s l n h = absurd h
replies-Covers sub limit ub id loff (p ∷ []) m s l n h =
    last-Covered limit ub loff (read_data_resp limit p m)
      (read_data_resp-Sent limit ub loff pfs_r_data_last p m l h.4 h.1 h.2 n h.5)
replies-Covers sub limit ub id loff (p ∷ q ∷ ps) m s l n h =
    joined-Covered limit ub (loff + sub) loff (read_data_resp limit p m) (replies limit (q ∷ ps))
      (read_data_resp-Sent limit (loff + sub) loff pfs_r_data p m l h.3 h.1 (omega (arith, h.2))
        (omega arith) h.5)
      (λ m'. replies-Covers sub limit ub id (loff + sub) (q ∷ ps) m' s l h.4 h.6)
