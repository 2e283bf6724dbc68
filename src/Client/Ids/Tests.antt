-- ===== src/Client/Ids/Tests.antt =====
-- The clients 3 and 4.
use pfssim.Base.{◌+◌, ◌≢◌, arith}
use pfssim.Client.Ids.{request_id, request_ids_differ}

request_ids_differ_example : request_id 3 1200 + 7 ≢ request_id 4 0 + 2
request_ids_differ_example =
    request_ids_differ 3 4 1200 0 7 2 (λ e. absurd (omega (arith, e))) (omega arith) (omega arith)
