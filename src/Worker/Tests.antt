-- ===== src/Worker/Tests.antt =====
-- A run of the inner loop, and the worker's theorems at concrete inputs.
use Prim.Native.Nat.{ℕ, ◌+◌}
use native.Mathlib.Decide.{dec_le}
use mathlib.Core.List.{filter, List, Mem, Perm, Nodup, ◌++◌, map}
use mathlib.Core.List.Perm
use pg_grpc.Common.{
  ◌<◌, inl, [], ◌∷◌, ℕ_discrete, ◌≡◌, refl, ap, true, false, Option, none, some, if◌then◌else◌,
  nat_beq, contains, arith, nat_eq,
}
use pg_grpc.Common.Members.{distinct-Nodup, contains_of_mem}
use mathlib.Core.Logic.Dec
use pg_grpc.HashMap
use pg_grpc.Json.{number}
use pg_grpc.Queue.Results.{stored}
use pg_grpc.Queue.{QueueRow, CallOutcome, CallResult, ResultRow, Db, dequeue, picked}
use pg_grpc.Queue.Store.{
  deletes, ttl_cleanup, insert_results, columns_from, push_result, unnest, insert_rows, insert_row,
}
use pg_grpc.Queue.Tests.{busy, waiting, old_result}
use pg_grpc.Worker.{
  Runtime, run_batch, round, idle, drain, finish_round, spawn_all, task_ids, stored_batch,
}
use pg_grpc.Worker.Batch.{due, KeepsIds, run_batch-perm}
use pg_grpc.Worker.Rounds.{known, cleanup, RoundOf, round-RoundOf}
use pg_grpc.Worker.Kept.{Storable}
use pg_grpc.Worker.Ids.{WellKept, round-WellKept}
use pg_grpc.Worker.Drain.{undated, answers, drain_total, drain_answers}

-- Calls echo their request, but the second panics.
abbrev echo : QueueRow ℕ → Option (CallResult ℕ)
echo row =
    if nat_beq row.id 2
    then none
    else some (record { id = row.id; outcome = CallOutcome.success row.request })

abbrev pub sample : Runtime ℕ
sample = record {
  finish = echo;
  complete = λ k js. js;
  complete-perm = λ k js. Perm.refl js;
  now = λ k. 100 + k;
  sigterm_received = λ k. false;
  cutoff = λ ttl now. deletes 0;
  accepts = λ v msg. true;
  ttl = "6 hours";
  batch_size = 2;
}

pub echo_keeps : KeepsIds sample
echo_keeps row r h = ground arith

pub busy_distinct : Nodup (known busy)
unfolding contains
busy_distinct = distinct-Nodup (known busy) refl

run_batch-perm_example :
    Perm (run_batch sample 0 busy.call_queue) (map (due sample) busy.call_queue)
run_batch-perm_example = run_batch-perm sample 0 busy.call_queue

round-RoundOf_example : RoundOf sample 0 busy (round sample 0 busy)
round-RoundOf_example = round-RoundOf sample 0 busy echo_keeps (omega arith) busy_distinct

pub busy-Storable : Storable sample busy
busy-Storable = record { accepted = λ r m. refl; no_raise = λ j p. cc }

drain_total_example :
    (db' : Db ℕ) × (drain sample 4 0 busy ≡ idle db') × (db'.call_queue ≡ []) × Nodup (known db')
drain_total_example =
    drain_total sample echo_keeps (omega arith) 4 0 busy (λ j. refl) busy_distinct busy-Storable
      (omega arith)

keeps_all : (rows : List (ResultRow ℕ)) → filter (λ r. dec_le 0 r.created) rows ≡ rows
keeps_all [] = refl
keeps_all (r ∷ rows) = ground (arith, keeps_all rows)

pub cleanup_keeps : (j : ℕ) (d : Db ℕ) → cleanup sample j d ≡ d
unfolding ttl_cleanup
cleanup_keeps j d = ap (λ l. record d { call_result = l }) (keeps_all d.call_result)

drained_busy :
    (db' : Db ℕ) × (drain sample 4 0 busy ≡ idle db') × (db'.call_queue ≡ []) × Nodup (known db')
drained_busy =
    drain_total sample echo_keeps (omega arith) 4 0 busy (λ j. refl) busy_distinct busy-Storable
      (omega arith)

drain_answers_example :
    Perm
      (map undated drained_busy.0.call_result)
      (map undated busy.call_result ++ answers sample busy.call_queue)
drain_answers_example =
    drain_answers sample echo_keeps (omega arith) 4 0 busy drained_busy.0 cleanup_keeps
      busy_distinct drained_busy.1

busy_given_out : (i : ℕ) → Mem i (known busy) → i < 5
unfolding contains
busy_given_out i m = let among = contains_of_mem (known busy) i m in ground (arith, among)

pub busy-WellKept : WellKept busy
busy-WellKept = record { distinct = busy_distinct; given_out = busy_given_out }

abbrev pub once_drained : Db ℕ
once_drained = record busy {
  call_queue = waiting 4 ∷ [];
  call_result =
      old_result
      ∷ stored 100 (record { id = 3; outcome = CallOutcome.success (number 3) })
      ∷ stored 100 (record { id = 2; outcome = CallOutcome.error "task panicked" })
      ∷ [];
}

pub takes_two : round sample 0 busy ≡ stored_batch once_drained
unfolding round finish_round run_batch dequeue picked ℕ_discrete insert_results columns_from
    push_result unnest insert_rows insert_row contains ttl_cleanup spawn_all task_ids HashMap.get
    HashMap.insert Dec.not dec_le
takes_two = refl

round-WellKept_example : WellKept once_drained
round-WellKept_example =
    round-WellKept sample echo_keeps (omega arith) 0 busy once_drained busy-WellKept (inl takes_two)
