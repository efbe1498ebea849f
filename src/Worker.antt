-- ===== src/Worker.antt =====
-- src/worker.rs: the background worker's inner loop, which takes batches of calls out of the queue,
-- runs them at once, and stores their results.
pub mod Batch
pub mod Rounds
pub mod Kept
pub mod Drain
pub mod Ids
pub mod Answered
pub mod Tests
use mathlib.Core.List.{Perm}
use pg_grpc.Common.{
  ℕ, suc, ◌≤◌, ◌≡◌, String, Bool, true, false, Option, none, some, List, [], ◌∷◌, map, unwrap_or,
  nat_eq,
}
use pg_grpc.HashMap
use pg_grpc.HashMap.{HashMap}
use pg_grpc.Queue.{QueueRow, CallOutcome, CallResult, Db, dequeue}
use pg_grpc.Queue.Store.{Accepts, Cutoff, insert_results, ttl_cleanup}

-- What `join_next_with_id` yields for a task: its result, or that it panicked.
pub data Joined (N : Type 0) : Type 0 where
  finished : ℕ → CallResult N → Joined N
  panicked : ℕ → Joined N

-- What the loop gets from tokio, PostgreSQL and the settings. The rounds of the loop are counted,
-- so that a clock reading or an order of completion may differ from round to round.
pub record Runtime (N : Type 0) : Type 0 where
  -- `call_async_row` on a row, run to its end; nothing if it panics.
  pub finish : QueueRow N → Option (CallResult N)
  -- The order in which the tasks of a round complete.
  pub complete : ℕ → List (Joined N) → List (Joined N)
  pub complete-perm : (k : ℕ) (js : List (Joined N)) → Perm (complete k js) js
  -- The transaction's time in a round, and whether SIGTERM has arrived before it.
  pub now : ℕ → ℕ
  pub sigterm_received : ℕ → Bool
  -- `now() - ttl::interval`, and what PostgreSQL accepts of a result.
  pub cutoff : String → ℕ → Cutoff
  pub accepts : Accepts N
  pub ttl : String
  pub batch_size : ℕ

module _ {N : Type 0} where
  -- The tasks of a batch. tokio numbers them; the numbers of running tasks differ.
  unfoldable pub spawn_all : ℕ → List (QueueRow N) → List (ℕ × QueueRow N)
  spawn_all task [] = []
  spawn_all task (row ∷ rows) = (task, row) ∷ spawn_all (suc task) rows

  -- `ids`: the row of each task, filled as the tasks are spawned.
  unfoldable pub task_ids : ℕ → List (QueueRow N) → HashMap ℕ ℕ → HashMap ℕ ℕ
  task_ids task [] ids = ids
  task_ids task (row ∷ rows) ids = task_ids (suc task) rows (HashMap.insert task row.id ids)

  abbrev pub panic_result : ℕ → CallResult N
  panic_result id = record { id = id; outcome = CallOutcome.error "task panicked" }

  -- One round of the loop over the completed tasks.
  abbrev pub join_result : HashMap ℕ ℕ → Joined N → CallResult N
  join_result ids (finished task r) = r
  join_result ids (panicked task) = panic_result (unwrap_or (HashMap.get ids task) 0)

  abbrev pub joined : ℕ → Option (CallResult N) → Joined N
  joined task (some r) = finished task r
  joined task none = panicked task

module _ {N : Type 0} (rt : Runtime N) where
  abbrev pub run_task : ℕ × QueueRow N → Joined N
  run_task (task, row) = joined task (rt.finish row)

  -- The `block_on` of a round: spawn a task for each row, and collect the results as they come.
  unfoldable pub run_batch : ℕ → List (QueueRow N) → List (CallResult N)
  unfolding spawn_all task_ids
  run_batch k rows =
      map (join_result (task_ids 0 rows [])) (rt.complete k (map run_task (spawn_all 0 rows)))

-- How a round ends: the queue was empty; a batch was stored; or an SQL error made the worker panic,
-- which undoes the round's transaction.
pub data Round (N : Type 0) : Type 0 where
  drained : Db N → Round N
  stored_batch : Db N → Round N
  crashed : Round N

-- The end of a round, unless its clean-up raises an ERROR.
abbrev pub cleaned : {N : Type 0} → (Db N → Round N) → Option (Db N) → Round N
cleaned end none = crashed
cleaned end (some db) = end db

module _ {N : Type 0} (rt : Runtime N) where
  unfoldable pub finish_round : ℕ → List (QueueRow N) → Db N → Round N
  finish_round k [] db = cleaned drained (ttl_cleanup rt.cutoff rt.ttl (rt.now k) db)
  finish_round k (row ∷ rows) db =
      elim (insert_results rt.accepts (rt.now k) (run_batch rt k (row ∷ rows)) db) [
        | none ↦ crashed
        | some db' ↦ cleaned stored_batch (ttl_cleanup rt.cutoff rt.ttl (rt.now k) db')
      ]

  -- The transaction of a round.
  unfoldable pub round : ℕ → Db N → Round N
  round k db = let (rows, left) = dequeue rt.batch_size db in finish_round k rows left

-- How the inner loop ends.
pub data Drained (N : Type 0) : Type 0 where
  idle : Db N → Drained N
  terminated : Db N → Drained N
  panicking : Db N → Drained N
  out_of_fuel : Drained N

module _ {N : Type 0} (rt : Runtime N) where
  -- The inner loop from round `k`, for so many rounds at most.
  unfoldable pub drain : ℕ → ℕ → Db N → Drained N
  drain ℕ.zero k db = out_of_fuel
  drain (suc fuel) k db = elim (rt.sigterm_received k) [
    | true ↦ terminated db
    | false ↦ elim (round rt k db) [
      | drained db' ↦ idle db'
      | crashed ↦ panicking db
      | stored_batch db' ↦ drain fuel (suc k) db'
    ]
  ]
