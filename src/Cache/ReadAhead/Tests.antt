-- ===== src/Cache/ReadAhead/Tests.antt =====
-- A file that is read in order, then at random.
use pfssim.Base.{◌≡◌, refl, true, false, List, [], ◌∷◌, some, none}
use pfssim.Cache.ReadAhead.{ReadAhead, init}
use pfssim.Cache.ReadAhead.Runs.{Event, asks, accesses, run, run_disabled}

abbrev events : List Event
events = asks 0 6 ∷ accesses 6 false ∷ asks 6 20 ∷ accesses 14 true ∷ asks 40 44 ∷ asks 44 48 ∷ []

abbrev random : ReadAhead
random = record init { size = none; prev_page = some 43; start = 40 }

run_disabled_example : (r : ReadAhead) × (run events random ≡ some ([], r)) × (r.size ≡ none)
run_disabled_example = run_disabled events random refl
