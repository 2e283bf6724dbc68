-- ===== src/Client/Split.antt =====
-- `processDataPacketResponse` (omnetpp/client/pfsclient/strategy/PVFS2ClientStrategy.cc): the answer
-- to a write request starts the transfer of its data, in packets of limited size.
pub mod Tests
use pfssim.Base.{
  ℕ, zero, suc, ◌+◌, ◌-◌, ◌≤◌, ◌<◌, ◌≡◌, refl, inl, inr, Bool, true, false, ◌||◌, Option, none,
  some, List, [], ◌∷◌, leb, if◌then◌else◌, Bool-cases, arith,
}
use pfssim.Packet.{GPacket, Kind, pfs_w_data, pfs_w_data_last}

unfoldable pub prepend : GPacket → Option (List GPacket) → Option (List GPacket)
prepend p none = none
prepend p (some ps) = some (p ∷ ps)

unfoldable pub last_piece : GPacket → ℕ → ℕ → ℕ → GPacket
last_piece p id loff ub = record p {
  id = id;
  kind = pfs_w_data_last;
  low_offset = loff;
  size = ub - loff;
}

unfoldable pub piece : ℕ → GPacket → ℕ → ℕ → GPacket
piece limit p id loff = record p { id = id; kind = pfs_w_data; low_offset = loff; size = limit }

-- The loop, on fuel; `none` means that the fuel ran out. The packets are those that it appends.
unfoldable pub split : ℕ → GPacket → ℕ → ℕ → ℕ → ℕ → Option (List GPacket)
unfolding prepend last_piece piece
split limit p ub zero id loff = none
split limit p ub (suc fuel) id loff =
    let rest = split limit p ub fuel (id + 1) (loff + limit) in
    if leb ub (loff + limit) || p.read
    then some (last_piece p id loff ub ∷ [])
    else prepend (piece limit p id loff) rest

-- The fuel is shown to be enough.
unfoldable pub process_data_packet_response : ℕ → GPacket → Option (List GPacket)
process_data_packet_response limit p =
    split limit p (p.low_offset + p.size) (suc p.size) (p.id + 1) p.low_offset

-- Packets with consecutive IDs that cover the bytes from `loff` to `ub` one after the other, all of
-- the limit's size but the last, which is not larger and is marked as the last.
pub Pieces : ℕ → ℕ → ℕ → ℕ → List GPacket → Type 0
Pieces limit ub id loff [] = ⊥
Pieces limit ub id loff (p ∷ []) =
    (p.id ≡ id)
    × (p.low_offset ≡ loff)
    × (loff + p.size ≡ ub)
    × (p.size ≤ limit)
    × (p.kind ≡ pfs_w_data_last)
Pieces limit ub id loff (p ∷ q ∷ ps) =
    (p.id ≡ id)
    × (p.low_offset ≡ loff)
    × (p.size ≡ limit)
    × (p.kind ≡ pfs_w_data)
    × Pieces limit ub (id + 1) (loff + limit) (q ∷ ps)

-- What the loop returns.
abbrev pub Sends : ℕ → ℕ → ℕ → ℕ → Option (List GPacket) → Type 0
Sends limit ub id loff none = ⊥
Sends limit ub id loff (some ps) = Pieces limit ub id loff ps

prepend-Sends :
    (limit ub id loff : ℕ) (p : GPacket) (o : Option (List GPacket))
    → Sends limit ub (id + 1) (loff + limit) o
    → Sends limit ub id loff (prepend (piece limit p id loff) o)
unfolding prepend piece Pieces
prepend-Sends limit ub id loff p none h = h
prepend-Sends limit ub id loff p (some []) h = elim h [ ]
prepend-Sends limit ub id loff p (some (q ∷ ps)) h = (refl, refl, refl, refl, h)

split-Sends :
    (limit ub : ℕ) (p : GPacket)
    → 0 < limit
    → p.read ≡ false
    → (fuel id loff : ℕ) → loff ≤ ub
    → ub < loff + fuel
    → Sends limit ub id loff (split limit p ub fuel id loff)
unfolding split last_piece Pieces
split-Sends limit ub p pos w zero id loff le enough = absurd (omega arith)
split-Sends limit ub p pos w (suc fuel) id loff le enough =
    elim (Bool-cases (leb ub (loff + limit) || p.read)) [
      | inl fits ↦ rw fits (refl, refl, omega arith, ground arith, refl)
      | inr over ↦ rw over (
          prepend-Sends limit ub id loff p _ (
            split-Sends limit ub p pos w fuel (id + 1) (loff + limit) (ground arith) (omega arith)))
    ]

-- The transfer of a write ends and sends its bytes once each, in order: for a write and a limit that
-- is not 0, the packets have consecutive IDs that follow the request's, their ranges follow each
-- other from the first byte of the request to its last, each has the limit's size but the last,
-- which is not larger, and only the last is marked as the last.
pub process_data_packet_response-Sends :
    (limit : ℕ) (p : GPacket)
    → 0 < limit
    → p.read ≡ false
    → Sends limit
        (p.low_offset + p.size)
        (p.id + 1)
        p.low_offset
        (process_data_packet_response limit p)
unfolding process_data_packet_response
process_data_packet_response-Sends limit p pos w =
    split-Sends limit _ p pos w (suc p.size) (p.id + 1) p.low_offset (omega arith) (omega arith)
