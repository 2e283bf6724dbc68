-- ===== src/Application/Tests.antt =====
-- An application with two flows, of two writes and of one read.
use pfssim.Base.{
  ℕ, ◌==◌, if◌then◌else◌, length, Option, zero, suc, ◌≡◌, refl, false, some, List, [], ◌∷◌,
}
use pfssim.Scheduler.Samples.{whole}
use pfssim.Trace.{AppRequest}
use pfssim.Application.{
  Line, Application, create_request, Outcome, end_simulation, generate_initial_traces,
}
use pfssim.Application.Flows.{Reads, IsSmall}
use pfssim.Application.Runs.{session, session-Reads}

abbrev line : ℕ → ℕ → ℕ → Line whole
line f o s = record { time = 3; file_id = f; offset = o; size = s; read = false; app = 1; sync = 1 }

abbrev two : ℕ → List (Line whole)
two zero = line 5 300000000 4096 ∷ line 5 0 512 ∷ []
two (suc zero) = line 6 64 8192 ∷ []
two (suc (suc i)) = []

abbrev application : Application whole
application = record {
  flows = two;
  flow_count = 2;
  trace_id = 1;
  trace_process_time = 2;
  active = false;
  active_applications = 0;
}

application-IsSmall : IsSmall whole application
application-IsSmall zero = (refl, (refl, tt))
application-IsSmall (suc zero) = (refl, tt)
application-IsSmall (suc (suc j)) = tt

abbrev finished : AppRequest
finished = create_request whole 1 0 (line 5 300000000 4096)

session-Reads_example :
    Reads whole 0 application (session whole 10 ((20, finished) ∷ (40, finished) ∷ []) application)
session-Reads_example =
    session-Reads whole 0 10 ((20, finished) ∷ (40, finished) ∷ []) application application-IsSmall

-- The end of one flow ends the simulation, though the other one has a request left.
abbrev Ends : Option (Outcome whole) → Type 0
Ends (some (end_simulation ∷ es, a)) = length (a.flows 1) ≡ 1
Ends o = ⊥

abbrev half_empty : Application whole
half_empty = record application { flows = λ i. if i == 0 then [] else two 1 }

half_empty-Ends : Ends (generate_initial_traces whole 0 half_empty)
unfolding generate_initial_traces
half_empty-Ends = refl
