-- ===== src/Client/Module/Times.antt =====
-- The order and the times of the messages that a client sends (omnetpp/client/pfsclient/PFSClient.cc).
use pfssim.Base.{
  ℕ, zero, suc, ◌≡◌, refl, ap, inl, inr, true, false, Option, none, some, List, [], ◌∷◌, All, map,
  if◌then◌else◌, Bool-cases, Arith,
}
use pfssim.Packet.{GPacket}
use pfssim.Layout.{QPacket}
use pfssim.Trace.{AppRequest}
use pfssim.Client.{Out, layout_query, data_packet, trace_response}
use pfssim.Client.Module.{
  ProcessTimes, Effect, to_app, to_eth, schedule, is_request, prepend, process_from,
}

abbrev pub IsSent : Out → Type 0
IsSent (data_packet p) = is_request p.kind ≡ true
IsSent (layout_query q) = Unit
IsSent (trace_response r) = Unit

module _ (F : Arith) where
  abbrev pub out : Effect F → Out
  out (to_app t r) = trace_response r
  out (to_eth o) = o
  out (schedule t o) = o

  -- `n` steps of `d` from a time on.
  unfoldable pub steps : F.Double → F.Double → ℕ → List F.Double
  steps d t zero = []
  steps d t (suc n) = F.add t d ∷ steps d (F.add t d) n

  -- Nothing is set for later where the processing time is 0.
  abbrev pub expected : F.Double → F.Double → ℕ → List F.Double
  expected d t n = if F.eq d F.zero then [] else steps d t n

  unfoldable pub packets : List Out → ℕ
  packets [] = 0
  packets (data_packet p ∷ os) = suc (packets os)
  packets (layout_query q ∷ os) = packets os
  packets (trace_response r ∷ os) = packets os

  unfoldable pub queries : List Out → ℕ
  queries [] = 0
  queries (data_packet p ∷ os) = queries os
  queries (layout_query q ∷ os) = suc (queries os)
  queries (trace_response r ∷ os) = queries os

  -- The times of the packets, and of the queries, that are set for later.
  unfoldable pub packet_times : List (Effect F) → List F.Double
  packet_times [] = []
  packet_times (schedule t (data_packet p) ∷ es) = t ∷ packet_times es
  packet_times (_ ∷ es) = packet_times es

  unfoldable pub query_times : List (Effect F) → List F.Double
  query_times [] = []
  query_times (schedule t (layout_query q) ∷ es) = t ∷ query_times es
  query_times (_ ∷ es) = query_times es

  abbrev pub IsAt : F.Double → Effect F → Type 0
  IsAt now (to_app t r) = t ≡ now
  IsAt now (to_eth o) = Unit
  IsAt now (schedule t o) = Unit

  -- The messages are sent in order, each answer with the time of the call; the packets are set for steps of the one
  -- processing time, the queries for steps of the other.
  pub record Timed (c : ProcessTimes F) (now rise meta_rise : F.Double) (os : List Out)
      (es : List (Effect F)) : Type 0 where
    pub in_order : map out es ≡ os
    pub answers_at : All (IsAt now) es
    pub packets_at : packet_times es ≡ expected c.data_packet_process_time rise (packets os)
    pub queries_at : query_times es ≡ expected c.metadata_packet_process_time meta_rise (queries os)

  abbrev pub IsTimed :
      ProcessTimes F → F.Double → F.Double → F.Double → List Out → Option (List (Effect F)) → Type 0
  IsTimed c now rise meta_rise os none = ⊥
  IsTimed c now rise meta_rise os (some es) = Timed c now rise meta_rise os es

  answer-IsTimed :
      (c : ProcessTimes F) (now rise meta_rise : F.Double) (r : AppRequest) (os : List Out)
      (o : Option (List (Effect F)))
      → IsTimed c now rise meta_rise os o
      → IsTimed c now rise meta_rise (trace_response r ∷ os) (prepend F (to_app now r) o)
  unfolding packet_times query_times packets queries
  answer-IsTimed c now rise meta_rise r os none h = h
  answer-IsTimed c now rise meta_rise r os (some es) h = record {
    in_order = ap (λ (x : List Out). trace_response r ∷ x) h.in_order;
    answers_at = (refl, h.answers_at);
    packets_at = h.packets_at;
    queries_at = h.queries_at;
  }

  packet_later-IsTimed :
      (c : ProcessTimes F) (now rise meta_rise : F.Double) (p : GPacket) (os : List Out)
      (o : Option (List (Effect F)))
      → F.eq c.data_packet_process_time F.zero ≡ false
      → IsTimed c now (F.add rise c.data_packet_process_time) meta_rise os o
      → IsTimed c now rise meta_rise
          (data_packet p ∷ os)
          (prepend F (schedule (F.add rise c.data_packet_process_time) (data_packet p)) o)
  unfolding packet_times query_times packets queries steps
  packet_later-IsTimed c now rise meta_rise p os none e h = h
  packet_later-IsTimed c now rise meta_rise p os (some es) e h = record {
    in_order = ap (λ (x : List Out). data_packet p ∷ x) h.in_order;
    answers_at = (tt, h.answers_at);
    packets_at = rw (h.packets_at, e) refl;
    queries_at = h.queries_at;
  }

  packet_now-IsTimed :
      (c : ProcessTimes F) (now rise meta_rise : F.Double) (p : GPacket) (os : List Out)
      (o : Option (List (Effect F)))
      → F.eq c.data_packet_process_time F.zero ≡ true
      → IsTimed c now rise meta_rise os o
      → IsTimed c now rise meta_rise (data_packet p ∷ os) (prepend F (to_eth (data_packet p)) o)
  unfolding packet_times query_times packets queries
  packet_now-IsTimed c now rise meta_rise p os none e h = h
  packet_now-IsTimed c now rise meta_rise p os (some es) e h = record {
    in_order = ap (λ (x : List Out). data_packet p ∷ x) h.in_order;
    answers_at = (tt, h.answers_at);
    packets_at = rw (h.packets_at, e) refl;
    queries_at = h.queries_at;
  }

  query_later-IsTimed :
      (c : ProcessTimes F) (now rise meta_rise : F.Double) (q : QPacket) (os : List Out)
      (o : Option (List (Effect F)))
      → F.eq c.metadata_packet_process_time F.zero ≡ false
      → IsTimed c now rise (F.add meta_rise c.metadata_packet_process_time) os o
      → IsTimed c now rise meta_rise
          (layout_query q ∷ os)
          (prepend F (schedule (F.add meta_rise c.metadata_packet_process_time) (layout_query q)) o)
  unfolding packet_times query_times packets queries steps
  query_later-IsTimed c now rise meta_rise q os none e h = h
  query_later-IsTimed c now rise meta_rise q os (some es) e h = record {
    in_order = ap (λ (x : List Out). layout_query q ∷ x) h.in_order;
    answers_at = (tt, h.answers_at);
    packets_at = h.packets_at;
    queries_at = rw (h.queries_at, e) refl;
  }

  query_now-IsTimed :
      (c : ProcessTimes F) (now rise meta_rise : F.Double) (q : QPacket) (os : List Out)
      (o : Option (List (Effect F)))
      → F.eq c.metadata_packet_process_time F.zero ≡ true
      → IsTimed c now rise meta_rise os o
      → IsTimed c now rise meta_rise (layout_query q ∷ os) (prepend F (to_eth (layout_query q)) o)
  unfolding packet_times query_times packets queries
  query_now-IsTimed c now rise meta_rise q os none e h = h
  query_now-IsTimed c now rise meta_rise q os (some es) e h = record {
    in_order = ap (λ (x : List Out). layout_query q ∷ x) h.in_order;
    answers_at = (tt, h.answers_at);
    packets_at = h.packets_at;
    queries_at = rw (h.queries_at, e) refl;
  }

  none_expected : (d t : F.Double) → [] ≡ expected d t 0
  unfolding steps
  none_expected d t = elim (Bool-cases (F.eq d F.zero)) [ inl e ↦ rw e refl | inr e ↦ rw e refl ]

  pub process_from-IsTimed :
      (c : ProcessTimes F) (now rise meta_rise : F.Double) (os : List Out)
      → All IsSent os
      → IsTimed c now rise meta_rise os (process_from F c now rise meta_rise os)
  unfolding process_from packet_times query_times packets queries
  process_from-IsTimed c now rise meta_rise [] s = record {
    in_order = refl;
    answers_at = tt;
    packets_at = none_expected c.data_packet_process_time rise;
    queries_at = none_expected c.metadata_packet_process_time meta_rise;
  }
  process_from-IsTimed c now rise meta_rise (trace_response r ∷ os) (t, s) =
      answer-IsTimed c now rise meta_rise r os _ (process_from-IsTimed c now rise meta_rise os s)
  process_from-IsTimed c now rise meta_rise (data_packet p ∷ os) (t, s) =
      elim (Bool-cases (F.eq c.data_packet_process_time F.zero)) [
        | inl e ↦
            rw (t, e)
              (packet_now-IsTimed c now rise meta_rise p os _ e
                (process_from-IsTimed c now rise meta_rise os s))
        | inr e ↦
            rw (t, e)
              (packet_later-IsTimed c now rise meta_rise p os _ e
                (process_from-IsTimed c now (F.add rise c.data_packet_process_time) meta_rise os s))
      ]
  process_from-IsTimed c now rise meta_rise (layout_query q ∷ os) (t, s) =
      elim (Bool-cases (F.eq c.metadata_packet_process_time F.zero)) [
        | inl e ↦ rw e (
            query_now-IsTimed c now rise meta_rise q os _ e
              (process_from-IsTimed c now rise meta_rise os s))
        | inr e ↦ rw e (
            query_later-IsTimed c now rise meta_rise q os _ e (
              process_from-IsTimed c now rise (F.add meta_rise c.metadata_packet_process_time) os
                s))
      ]
