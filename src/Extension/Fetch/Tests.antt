-- ===== src/Extension/Fetch/Tests.antt =====
-- Runs of `grpc_call_result`, and its theorem at a concrete input.
use pg_grpc.Common.{ℕ, suc, ◌<◌, ◌≡◌, refl, false, true, none, some, arith, [], ◌∷◌}
use pg_grpc.Json.{number}
use pg_grpc.Queue.{Db, lookup, LookupStatus, CallOutcome, pending}
use pg_grpc.Queue.Results.{stored}
use pg_grpc.Queue.Tests.{busy, waiting, old_result}
use pg_grpc.Extension.Fetch.{ResultColumns, report, grpc_call_result}
use pg_grpc.Extension.Fetch.Laws.{Final, grpc_call_result_waits}

abbrev answered : Db ℕ
answered = record busy {
  call_queue = waiting 4 ∷ [];
  call_result =
      old_result ∷ stored 100 (record { id = 3; outcome = CallOutcome.success (number 3) }) ∷ [];
}

-- The answer is there at the second poll.
abbrev seen : ℕ → Db ℕ
seen ℕ.zero = busy
seen (suc k) = answered

still_waits : (j : ℕ) → j < 1 → (lookup 3 (seen j)).status ≡ pending
unfolding lookup
still_waits ℕ.zero h = refl
still_waits (suc j) h = absurd (omega arith)

is_answered : (lookup 3 (seen 1)).status ≡ LookupStatus.success (number 3)
unfolding lookup
is_answered = refl

grpc_call_result_waits_example :
    (r : ResultColumns ℕ) × (grpc_call_result 2 seen 3 false ≡ some r)
    × Final 3 (lookup 3 (seen 1)).status r
grpc_call_result_waits_example =
    grpc_call_result_waits 2 seen 1 3 still_waits (λ p. cc is_answered) (omega arith)

at_once :
    grpc_call_result 0 seen 3 true
    ≡ some (record { id = 3; status = "PENDING"; message = none; response = none })
unfolding grpc_call_result lookup report
at_once = refl
