-- ===== src/Wake/Fair/Tests.antt =====
-- A run in which a younger call arrives between two rounds, and the theorem on it.
use mathlib.Core.List.{Mem, Nodup}
use mathlib.Core.Logic.Dec
use native.Mathlib.Decide.{dec_le}
use pg_grpc.Common.{
  ℕ, ◌+◌, ◌*◌, ◌≤◌, ◌≡◌, ◌≢◌, refl, [], ◌∷◌, ◌++◌, arith, contains, nat_eq, ℕ_discrete,
}
use pg_grpc.Common.Members.{distinct-Nodup, mem_of_contains}
use pg_grpc.HashMap
use pg_grpc.Json.{number}
use pg_grpc.Queue.{CallOutcome, Db, queue_ids, result_ids, lookup, pending, dequeue, picked}
use pg_grpc.Queue.Results.{stored}
use pg_grpc.Queue.Store.{
  ttl_cleanup, insert_results, columns_from, push_result, unnest, insert_rows, insert_row,
}
use pg_grpc.Queue.Tests.{busy, waiting}
use pg_grpc.Worker.{round, finish_round, run_batch, spawn_all, task_ids, stored_batch}
use pg_grpc.Worker.Rounds.{known}
use pg_grpc.Worker.Tests.{sample, echo_keeps, cleanup_keeps, busy_distinct, once_drained, takes_two}
use pg_grpc.Wake.System.{with_calls}
use pg_grpc.Wake.Fair.{weight, ahead, Run, starts, commits, stores_batch}
use pg_grpc.Wake.Fair.Laws.{no_starvation}

-- The fifth call is committed after the first round.
abbrev joined : Db ℕ
joined = with_calls (waiting 5 ∷ []) once_drained

abbrev all_done : Db ℕ
all_done = record joined {
  call_queue = [];
  call_result =
      joined.call_result
      ++ stored 101 (record { id = 4; outcome = CallOutcome.success (number 4) })
        ∷ stored 101 (record { id = 5; outcome = CallOutcome.success (number 5) })
        ∷ [];
}

joined_distinct : Nodup (known joined)
unfolding contains
joined_distinct = distinct-Nodup (known joined) refl

takes_rest : round sample 1 joined ≡ stored_batch all_done
unfolding round finish_round run_batch dequeue picked ℕ_discrete insert_results columns_from
    push_result unnest insert_rows insert_row contains ttl_cleanup spawn_all task_ids HashMap.get
    HashMap.insert Dec.not dec_le
takes_rest = refl

two_rounds : Run sample 4 busy 2 (0 + ahead 4 (waiting 5 ∷ [])) all_done
two_rounds =
    stores_batch 1 all_done
      (commits (waiting 5 ∷ []) (stores_batch 0 once_drained starts takes_two) joined_distinct)
      takes_rest

has_room : ahead 4 busy.call_queue + (0 + ahead 4 (waiting 5 ∷ [])) ≤ 2 * 2
unfolding ahead weight
has_room = omega arith

fourth_waits : Mem 4 (queue_ids busy.call_queue)
unfolding contains
fourth_waits = mem_of_contains (queue_ids busy.call_queue) 4 refl

no_starvation_example :
    Mem 4 (result_ids all_done.call_result) × ((lookup 4 all_done).status ≢ pending)
no_starvation_example =
    no_starvation sample 4 echo_keeps (omega arith) cleanup_keeps busy_distinct fourth_waits
      two_rounds has_room
