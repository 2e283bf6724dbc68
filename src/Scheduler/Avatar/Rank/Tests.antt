-- ===== src/Scheduler/Avatar/Rank/Tests.antt =====
-- The rank 3/4 of eight response times, with numbers of quarters in place of `double`.
use pfssim.Base.{ℕ, ◌≡◌, refl, List, [], ◌∷◌, some, arith}
use pfssim.Scheduler.Samples.{quarters, quarters_order, trunc}
use pfssim.Scheduler.Avatar.Rank.{get_value_by_rank}
use pfssim.Scheduler.Avatar.Rank.Laws.{IsAtRank, get_value_by_rank-IsAtRank}

abbrev times : List ℕ
times = 9 ∷ 4 ∷ 12 ∷ 4 ∷ 30 ∷ 7 ∷ 12 ∷ 1 ∷ []

get_value_by_rank-IsAtRank_example :
    (v : ℕ) × (get_value_by_rank quarters trunc 4 times 3 ≡ some v) × IsAtRank quarters v 2 times
get_value_by_rank-IsAtRank_example =
    get_value_by_rank-IsAtRank quarters quarters_order trunc 4 3 times 2 refl refl refl
      (omega arith)
