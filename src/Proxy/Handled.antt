-- ===== src/Proxy/Handled.antt =====
-- What the handlers of a proxy (omnetpp/proxy/Proxy.cc) owe, and how it composes.
use pfssim.Base.{
  ℕ, ◌+◌, ◌≡◌, refl, Bool, true, not, none, some, List, [], ◌∷◌, ◌++◌, map, count_by,
  count_by-append, count_by-cons, count_by-nil, arith,
}
use pfssim.Packet.{Kind, GPacket}
use pfssim.Scheduler.IQueue.{IQueue, Contract}
use pfssim.Proxy.{
  Messenger, Effect, sends, tells, schedules, sets_timer, is_inner, Proxy, Result, then_do,
  prefix_with,
}

-- The packets that effects send or schedule.
abbrev pub packets_of : {M : Type 0} → List (Effect M) → List GPacket
packets_of [] = []
packets_of (sends p ∷ es) = p ∷ packets_of es
packets_of (tells m ∷ es) = packets_of es
packets_of (schedules d p ∷ es) = p ∷ packets_of es
packets_of (sets_timer d ∷ es) = packets_of es

pub count_by-packets_of :
    {M : Type 0} (p : GPacket → Bool) (es fs : List (Effect M))
    → count_by p (packets_of (es ++ fs)) ≡ count_by p (packets_of es) + count_by p (packets_of fs)
count_by-packets_of p [] fs = omega (arith, count_by-nil p)
count_by-packets_of p (sends a ∷ es) fs = omega (
  arith,
  count_by-cons p a (packets_of (es ++ fs)),
  count_by-cons p a (packets_of es),
  count_by-packets_of p es fs,
)
count_by-packets_of p (tells m ∷ es) fs = count_by-packets_of p es fs
count_by-packets_of p (schedules d a ∷ es) fs = omega (
  arith,
  count_by-cons p a (packets_of (es ++ fs)),
  count_by-cons p a (packets_of es),
  count_by-packets_of p es fs,
)
count_by-packets_of p (sets_timer d ∷ es) fs = count_by-packets_of p es fs

pub packets_of-tells : {M : Type 0} (ms : List M) → packets_of (map tells ms) ≡ []
packets_of-tells [] = refl
packets_of-tells (m ∷ ms) = packets_of-tells ms

-- A test that does not read the kind of a packet.
abbrev pub KindBlind : (GPacket → Bool) → Type 0
KindBlind p = (a : GPacket) (k : Kind) → p (record a { kind = k }) ≡ p a

abbrev pub any_packet : GPacket → Bool
any_packet a = true

abbrev pub outside : GPacket → Bool
outside a = not (is_inner a.kind)

pub outside_none : (a : GPacket) → count_by outside (a ∷ []) ≡ 0 → is_inner a.kind ≡ true
unfolding count_by
outside_none a h = ground arith

module _ (q : IQueue GPacket) (m : Messenger q) (c : Contract q) where
  -- The queue is in a valid state, all that waits has an internal kind, and the proxy counts all that is outstanding but `owed` packets.
  pub record IsCounted (owed : ℕ) (x : Proxy q m) : Type 0 where
    pub valid : c.Valid x.queue
    pub counted : x.os_req_num + owed ≡ count_by any_packet (q.outstanding x.queue)
    pub ready : count_by outside (q.waiting x.queue) ≡ 0

  -- Packets come in, and effects go out: whatever waited or came in waits, or is sent or scheduled.
  pub record Handled (owed : ℕ) (x : Proxy q m) (ins : List GPacket) (es : List (Effect m.Message))
      (y : Proxy q m) : Type 0 where
    pub sound : IsCounted owed y
    pub kept :
        (p : GPacket → Bool)
        → KindBlind p
        → count_by p (q.waiting x.queue) + count_by p ins
          ≡ count_by p (q.waiting y.queue) + count_by p (packets_of es)

  -- A handler ends, with what it owes.
  abbrev pub Handles : ℕ → Proxy q m → List GPacket → Result q m → Type 0
  Handles owed x ins none = ⊥
  Handles owed x ins (some (es, y)) = Handled owed x ins es y

  pub idle-Handled : {n : ℕ} (x : Proxy q m) → IsCounted n x → Handled n x [] [] x
  idle-Handled x s = record { sound = s; kept = λ p b. refl }

  pub Handled-trans :
      {n k : ℕ} (x y z : Proxy q m) (ins bs : List GPacket) (es fs : List (Effect m.Message))
      → Handled n x ins es y
      → Handled k y bs fs z
      → Handled k x (ins ++ bs) (es ++ fs) z
  Handled-trans x y z ins bs es fs h k = record {
    sound = k.sound;
    kept = λ p b.
        omega
          (arith, h.kept p b, k.kept p b, count_by-append p ins bs, count_by-packets_of p es fs);
  }

  pub Handles-prefix :
      {n : ℕ} (k : ℕ) (x y : Proxy q m) (ins bs : List GPacket) (es : List (Effect m.Message))
      (r : Result q m)
      → Handled n x ins es y
      → Handles k y bs r
      → Handles k x (ins ++ bs) (prefix_with q m es r)
  Handles-prefix k x y ins bs es none h g = g
  Handles-prefix k x y ins bs es (some (fs, z)) h g = Handled-trans x y z ins bs es fs h g

  -- The rule for one part after another.
  pub then_do-Handles :
      (n k : ℕ) (x : Proxy q m) (ins bs : List GPacket) (r : Result q m)
      (f : Proxy q m → Result q m)
      → Handles n x ins r
      → ((es : List (Effect m.Message)) (y : Proxy q m)
          → Handled n x ins es y
          → Handles k y bs (f y))
      → Handles k x (ins ++ bs) (then_do q m r f)
  then_do-Handles n k x ins bs none f h g = absurd h
  then_do-Handles n k x ins bs (some (es, y)) f h g =
      Handles-prefix k x y ins bs es (f y) h (g es y h)

  -- What came in is in the queue, or what was in the queue counts as come in.
  pub Handles-shift :
      (k : ℕ) (x y : Proxy q m) (ins bs : List GPacket) (r : Result q m)
      → ((p : GPacket → Bool)
          → KindBlind p
          → count_by p (q.waiting x.queue) + count_by p ins
            ≡ count_by p (q.waiting y.queue) + count_by p bs)
      → Handles k y bs r
      → Handles k x ins r
  Handles-shift k x y ins bs none e h = h
  Handles-shift k x y ins bs (some (es, z)) e h = record {
    sound = h.sound;
    kept = λ p b. omega (arith, e p b, h.kept p b);
  }
