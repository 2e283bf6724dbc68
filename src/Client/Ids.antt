-- ===== src/Client/Ids.antt =====
-- The IDs of the requests of a client (omnetpp/client/pfsclient/strategy/PVFS2ClientStrategy.cc).
mod Tests
use pfssim.Base.{
  ℕ, zero, suc, ◌+◌, ◌-◌, ◌*◌, ◌/◌, ◌%◌, ◌≤◌, ◌<◌, ◌≡◌, ◌≢◌, refl, inl, inr, leb, if◌then◌else◌,
  Bool-cases, arith,
}

-- General.h
abbrev pub cid_offset : ℕ
cid_offset = 1000000

abbrev pub rid_offset : ℕ
rid_offset = 1000

abbrev pub first_request_id : ℕ → ℕ
first_request_id my_id = cid_offset * my_id + rid_offset * 1

-- The ID after one that was used.
unfoldable pub next_request_id : ℕ → ℕ → ℕ
next_request_id my_id id =
    if leb (cid_offset - rid_offset) ((id + rid_offset) % cid_offset)
    then first_request_id my_id
    else id + rid_offset

-- The ID of the `n`-th request of a client.
unfoldable pub request_id : ℕ → ℕ → ℕ
request_id my_id zero = first_request_id my_id
request_id my_id (suc n) = next_request_id my_id (request_id my_id n)

-- The IDs that a client may use.
abbrev Own : ℕ → ℕ → Type 0
Own my_id id =
    (first_request_id my_id ≤ id)
    × (id + rid_offset < cid_offset * my_id + cid_offset)
    × (id % rid_offset ≡ 0)

next-Own : (my_id id : ℕ) → Own my_id id → Own my_id (next_request_id my_id id)
unfolding next_request_id
next-Own my_id id (low, high, whole) =
    elim (Bool-cases (leb (cid_offset - rid_offset) ((id + rid_offset) % cid_offset))) [
      | inl wraps ↦ rw wraps (omega arith, omega arith, omega arith)
      | inr fits ↦ rw fits (omega arith, ground arith, omega arith)
    ]

request_id-Own : (my_id n : ℕ) → Own my_id (request_id my_id n)
unfolding request_id
request_id-Own my_id zero = (omega arith, omega arith, omega arith)
request_id-Own my_id (suc n) = next-Own my_id (request_id my_id n) (request_id-Own my_id n)

-- However many requests they send, two clients never use one ID: neither for their requests nor for
-- the packets that follow a request, whose IDs are less than RID_OFFSET after that of the request.
pub request_ids_differ :
    (a b n m i j : ℕ)
    → a ≢ b
    → i < rid_offset
    → j < rid_offset
    → request_id a n + i ≢ request_id b m + j
request_ids_differ a b n m i j differ hi hj e =
    differ (omega (arith, request_id-Own a n, request_id-Own b m, e))
