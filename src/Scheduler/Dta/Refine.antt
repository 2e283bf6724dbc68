-- ===== src/Scheduler/Dta/Refine.antt =====
-- `refineWaitQ` (omnetpp/scheduler/DTA/DTAEDF.cc and DTAFIFO.cc), which starts again from the front after each
-- packet that it erases, is a filter.
use pfssim.Base.{
  ℕ, zero, suc, ◌<◌, ◌≡◌, refl, sym, ap, ◌∙◌, inl, inr, true, Option, none, some, List, [], ◌∷◌,
  length, Bool-cases, Option-cases, arith,
}
use pfssim.Packet.{GPacket}
use pfssim.Scheduler.Fifo.{Fifo}
use pfssim.Scheduler.Edf.Sorted.{filter_by}
use pfssim.Scheduler.Dta.Inner.{Table, has, beside, erase_first, refine_wait_q, refine}

abbrev pub kept : Table GPacket → List GPacket → List GPacket
kept m ps = filter_by (λ (p : GPacket). has m p.id) ps

abbrev Erased : Table GPacket → List GPacket → Option (List GPacket) → Type 0
Erased m ps none = kept m ps ≡ ps
Erased m ps (some qs) = (kept m qs ≡ kept m ps) × (length ps ≡ suc (length qs))

beside-Erased :
    (m : Table GPacket) (p : GPacket) (ps : List GPacket) (o : Option (List GPacket))
    → has m p.id ≡ true
    → Erased m ps o
    → Erased m (p ∷ ps) (beside p o)
unfolding filter_by
beside-Erased m p ps none e h = rw e (ap (λ (x : List GPacket). p ∷ x) h)
beside-Erased m p ps (some qs) e h =
    (rw e (ap (λ (x : List GPacket). p ∷ x) h.0), ap (λ (n : ℕ). suc n) h.1)

erase_first-Erased : (m : Table GPacket) (ps : List GPacket) → Erased m ps (erase_first m ps)
unfolding erase_first filter_by
erase_first-Erased m [] = refl
erase_first-Erased m (p ∷ ps) = elim (Bool-cases (has m p.id)) [
  | inl e ↦ rw e (beside-Erased m p ps _ e (erase_first-Erased m ps))
  | inr e ↦ rw e (rw e refl, refl)
]

erased :
    (m : Table GPacket) (ps : List GPacket) (o : Option (List GPacket))
    → erase_first m ps ≡ o
    → Erased m ps o
erased m ps o e = rw (← e) (erase_first-Erased m ps)

refine_step :
    (fuel : ℕ) (m : Table GPacket) (ps : List GPacket) (o : Option (List GPacket))
    → erase_first m ps ≡ o
    → refine_wait_q (suc fuel) m ps ≡ elim o [ none ↦ some ps | some qs ↦ refine_wait_q fuel m qs ]
unfolding refine_wait_q
refine_step fuel m ps o e = rw (← e) refl

refine_wait_q-kept :
    (fuel : ℕ) (m : Table GPacket) (ps : List GPacket)
    → length ps < fuel
    → refine_wait_q fuel m ps ≡ some (kept m ps)
unfolding refine_wait_q
refine_wait_q-kept zero m ps h = absurd (omega arith)
refine_wait_q-kept (suc fuel) m ps h = elim (Option-cases (erase_first m ps)) [
  | inl e ↦ refine_step fuel m ps none e ∙ (ap some (sym (erased m ps none e)))
  | inr (qs, e) ↦
      let (same, shorter) = erased m ps (some qs) e in
      refine_step fuel m ps (some qs) e
      ∙ (refine_wait_q-kept fuel m qs (omega (arith, shorter, h)) ∙ ap some same)
]

-- `refineWaitQ` ends and keeps the packets that are in the map, in order.
pub refine-kept :
    (m : Table GPacket) (q : Fifo GPacket)
    → refine m q ≡ some (record q { wait_q = kept m q.wait_q })
unfolding refine
refine-kept m q = rw (refine_wait_q-kept (suc (length q.wait_q)) m q.wait_q (omega arith)) refl
