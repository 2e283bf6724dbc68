-- ===== src/Application/Runs.antt =====
-- The requests that an application makes from its start on (omnetpp/client/application/Application.cc).
use pfssim.Base.{
  ℕ, zero, suc, ◌+◌, refl, Bool, true, false, Option, none, some, List, [], ◌∷◌, Arith,
}
use pfssim.Trace.{AppRequest}
use pfssim.Application.{
  Application, Outcome, write, and_then, read_one_trace, read_flows, activate,
  generate_initial_traces, handle_finished_trace, handle_message, trace_resp,
}
use pfssim.Application.Flows.{
  asked, IsSmall, Reads, also-Reads, and_then-Reads, read_one_trace-Reads,
}

module _ (F : Arith) where
  read_flows-Reads :
      (i n from : ℕ) (now : F.Double) (a : Application F)
      → IsSmall F a
      → Reads F i a (read_flows F now n from a)
  unfolding read_flows asked
  read_flows-Reads i zero from now a s = (refl, refl, s)
  read_flows-Reads i (suc n) from now a s =
      and_then-Reads F i a (read_one_trace F now from a) (read_flows F now n (from + 1))
        (read_one_trace-Reads F i from now a s) (read_flows-Reads i n (from + 1) now)

  activate-Reads :
      (i : ℕ) (b : Bool) (a : Application F) (o : Option (Outcome F))
      → Reads F i (activate F b a) o
      → Reads F i a o
  unfolding activate
  activate-Reads i b a none h = h
  activate-Reads i true a (some o) h = h
  activate-Reads i false a (some (es, a')) h = h

  activate-IsSmall : (b : Bool) (a : Application F) → IsSmall F a → IsSmall F (activate F b a)
  unfolding activate
  activate-IsSmall true a s = s
  activate-IsSmall false a s = s

  generate_initial_traces-Reads :
      (i : ℕ) (now : F.Double) (a : Application F)
      → IsSmall F a
      → Reads F i a (generate_initial_traces F now a)
  unfolding generate_initial_traces
  generate_initial_traces-Reads i now a s =
      let a' = activate F a.active a in
      activate-Reads i a.active a (read_flows F now a.flow_count 0 a')
        (read_flows-Reads i a.flow_count 0 now a' (activate-IsSmall a.active a s))

  handle_finished_trace-Reads :
      (i : ℕ) (now : F.Double) (r : AppRequest) (a : Application F)
      → IsSmall F a
      → Reads F i a (handle_finished_trace F now r a)
  unfolding handle_finished_trace asked
  handle_finished_trace-Reads i now r a s =
      also-Reads F i a a (write r ∷ []) (read_one_trace F now r.trace_file_id a) (refl, refl, s)
        (read_one_trace-Reads F i r.trace_file_id now a s)

  -- The answers that come after the start, each with its time.
  unfoldable pub answers : List (F.Double × AppRequest) → Application F → Option (Outcome F)
  answers [] a = some ([], a)
  answers ((now, r) ∷ rs) a =
      and_then F (handle_message F now (trace_resp r) a) (λ (a' : Application F). answers rs a')

  unfoldable pub session :
      F.Double → List (F.Double × AppRequest) → Application F → Option (Outcome F)
  unfolding answers
  session now rs a = and_then F (generate_initial_traces F now a) (answers rs)

  answers-Reads :
      (i : ℕ) (rs : List (F.Double × AppRequest)) (a : Application F)
      → IsSmall F a
      → Reads F i a (answers rs a)
  unfolding answers handle_message asked
  answers-Reads i [] a s = (refl, refl, s)
  answers-Reads i ((now, r) ∷ rs) a s =
      and_then-Reads F i a (handle_finished_trace F now r a) (answers rs)
        (handle_finished_trace-Reads i now r a s) (answers-Reads i rs)

  -- Where all lines are of less than TRC_MAXSIZE bytes, an application meets no error from its start on, whatever requests
  -- are answered and when: what it has asked for on behalf of the input flow `i`, followed by what is left of the
  -- flow, is what the flow held, in order, with the file, the offset, the size, the direction and the application of
  -- each line; and the requests have consecutive IDs.
  pub session-Reads :
      (i : ℕ) (now : F.Double) (rs : List (F.Double × AppRequest)) (a : Application F)
      → IsSmall F a
      → Reads F i a (session now rs a)
  unfolding session
  session-Reads i now rs a s =
      and_then-Reads F i a (generate_initial_traces F now a) (answers rs)
        (generate_initial_traces-Reads i now a s) (answers-Reads i rs)
