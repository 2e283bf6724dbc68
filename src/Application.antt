-- ===== src/Application.antt =====
-- omnetpp/client/application/Application.cc: an application reads the traces of its input flows
-- (omnetpp/iostreamer/istreamer/TraceInputStreamer.cc) and sends a request for each, the next one of a
-- flow when the last one of it is answered. A flow is the list of its lines, as `sscanf` reads them.
pub mod Flows
pub mod Runs
mod Tests
use pfssim.Base.{
  ℕ, zero, suc, ◌+◌, ◌-◌, ◌/◌, ◌%◌, Bool, true, false, Option, none, some, List, [], ◌∷◌, ◌++◌,
  ◌==◌, leb, if◌then◌else◌, update, Arith,
}
use pfssim.Trace.{AppRequest, lowoffset_range}

abbrev pub trc_maxsize : ℕ
trc_maxsize = 1038090240

module _ (F : Arith) where
  pub record Line : Type 0 where
    pub time : F.Double
    pub file_id : ℕ
    pub offset : ℕ
    pub size : ℕ
    pub read : Bool
    pub app : ℕ
    pub sync : ℕ

  -- `active_applications` is shared by all applications.
  pub record Application : Type 0 where
    pub flows : ℕ → List Line
    pub flow_count : ℕ
    pub trace_id : ℕ
    pub trace_process_time : F.Double
    pub active : Bool
    pub active_applications : ℕ

  -- A request that is sent to the client or set for a time, with its start time; a finished request that
  -- is written out.
  pub data Effect : Type 0 where
    send : F.Double → AppRequest → Effect
    schedule : F.Double → AppRequest → Effect
    write : AppRequest → Effect
    end_simulation : Effect

  abbrev pub Outcome : Type 0
  Outcome = List Effect × Application

  -- What the next step does after the messages of the one before; `none` is an error that ended the program.
  abbrev pub also : List Effect → Option Outcome → Option Outcome
  also es none = none
  also es (some (fs, a)) = some (es ++ fs, a)

  -- `endSimulation` does not return.
  abbrev pub ends : List Effect → Bool
  ends [] = false
  ends (end_simulation ∷ es) = true
  ends (_ ∷ es) = ends es

  abbrev pub and_then : Option Outcome → (Application → Option Outcome) → Option Outcome
  and_then none k = none
  and_then (some (es, a)) k = if ends es then some (es, a) else also es (k a)

  -- `readTrace` and `createAppRequest`.
  pub create_request : ℕ → ℕ → Line → AppRequest
  create_request id index l = record {
    id = id;
    app = l.app;
    file_id = l.file_id;
    high_offset = l.offset / lowoffset_range;
    low_offset = l.offset % lowoffset_range;
    read = l.read;
    total_size = l.size;
    trace_file_id = index;
    sync = l.sync;
  }

  pub send_time : F.Double → Application → Line → F.Double
  send_time now a l =
      let time = (if l.sync == 0 then l.time else F.add now l.time) in
      let earliest = F.add now a.trace_process_time in if F.lt time earliest then earliest else time

  pub send_or_schedule : F.Double → F.Double → AppRequest → Effect
  send_or_schedule now time r = if F.lt now time then schedule time r else send time r

  pub retire : Bool → Application → Application
  retire true a = record a { active = false; active_applications = a.active_applications - 1 }
  retire false a = a

  -- The end of a flow.
  pub end_of_file : Application → Outcome
  unfolding retire
  end_of_file a =
      let a' = retire a.active a in
      ((if a'.active_applications == 0 then end_simulation ∷ [] else []), a')

  pub read_lines : F.Double → ℕ → List Line → Application → Option Outcome
  unfolding create_request send_time send_or_schedule end_of_file
  read_lines now index [] a = some (end_of_file a)
  read_lines now index (l ∷ ls) a =
      if leb trc_maxsize l.size
      then none
      else some (
        send_or_schedule now (send_time now a l) (create_request a.trace_id index l) ∷ [],
        record a { flows = update a.flows index ls; trace_id = a.trace_id + 1 },
      )

  pub read_one_trace : F.Double → ℕ → Application → Option Outcome
  unfolding read_lines
  read_one_trace now index a = read_lines now index (a.flows index) a

  -- The loop over the flows from `i` on, `n` of them.
  pub read_flows : F.Double → ℕ → ℕ → Application → Option Outcome
  unfolding read_one_trace
  read_flows now zero i a = some ([], a)
  read_flows now (suc n) i a =
      and_then (read_one_trace now i a) (λ (a' : Application). read_flows now n (i + 1) a')

  pub activate : Bool → Application → Application
  activate true a = a
  activate false a = record a { active = true; active_applications = a.active_applications + 1 }

  pub generate_initial_traces : F.Double → Application → Option Outcome
  unfolding read_flows activate
  generate_initial_traces now a = read_flows now a.flow_count 0 (activate a.active a)

  pub handle_finished_trace : F.Double → AppRequest → Application → Option Outcome
  unfolding read_one_trace
  handle_finished_trace now r a = also (write r ∷ []) (read_one_trace now r.trace_file_id a)

  pub data Message : Type 0 where
    trace_req : F.Double → AppRequest → Message
    trace_resp : AppRequest → Message

  -- A request that was set for a time is sent then.
  pub handle_message : F.Double → Message → Application → Option Outcome
  unfolding handle_finished_trace
  handle_message now (trace_req time r) a = some (send time r ∷ [], a)
  handle_message now (trace_resp r) a = handle_finished_trace now r a
