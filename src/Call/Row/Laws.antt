-- ===== src/Call/Row/Laws.antt =====
-- A call of the queue is answered, under its own id, within its four waits.
use pg_grpc.Common.{
  ℕ, as_u64, ◌≡◌, refl, sym, ap, Bool, true, false, Option, none, some, ok, err, if◌then◌else◌,
}
use mathlib.Core.Option.{some-injective}
use pg_grpc.Errors.{GrpcResult}
use pg_grpc.Options.{OptionsConfig}
use pg_grpc.Queue.{QueueRow, CallOutcome, CallResult}
use pg_grpc.Worker.{Runtime}
use pg_grpc.Worker.Batch.{KeepsIds}
use pg_grpc.Call.Network.{Libraries}
use pg_grpc.Call.Async.{Caches}
use pg_grpc.Call.Timed.{Schedule, call_with_timeout}
use pg_grpc.Call.Row.{row_options, row_request, outcome_of, result_of, call_row, call_async_row}

module _ (lib : Libraries) where
  result_of-id :
      (id : ℕ) (o : Option (CallOutcome lib.numbers.N)) (r : CallResult lib.numbers.N)
      → result_of lib id o ≡ some r
      → r.id ≡ id
  result_of-id id none r h = cc
  result_of-id id (some outcome) r h = sym (ap (λ x. x.id) (some-injective _ r h))

  call_row-id :
      (row : QueueRow lib.numbers.N) (sched : Schedule lib) (c : Caches lib)
      (o : GrpcResult OptionsConfig) (r : CallResult lib.numbers.N)
      → (call_row lib row sched c o).1 ≡ some r
      → r.id ≡ row.id
  call_row-id row sched c (err e) r h = sym (ap (λ x. x.id) (some-injective _ r h))
  call_row-id row sched c (ok opts) r h =
      result_of-id row.id
        (outcome_of lib (as_u64 row.timeout_ms)
          (call_with_timeout lib (row_request lib row opts) sched c).1)
        r h

  pub call_async_row-id :
      (row : QueueRow lib.numbers.N) (sched : Schedule lib) (c : Caches lib)
      (r : CallResult lib.numbers.N)
      → (call_async_row lib row sched c).1 ≡ some r
      → r.id ≡ row.id
  unfolding call_async_row
  call_async_row-id row sched c r h = call_row-id row sched c (row_options lib row.options) r h

  -- What the tasks of a worker meet: the schedule and the caches of each call, and which of them
  -- panic.
  pub record World : Type 0 where
    pub schedule : QueueRow lib.numbers.N → Schedule lib
    pub caches : QueueRow lib.numbers.N → Caches lib
    pub panics : QueueRow lib.numbers.N → Bool

  -- The result of a task that `call_async_row` runs.
  abbrev pub task_result : World → QueueRow lib.numbers.N → Option (CallResult lib.numbers.N)
  task_result w row =
      if w.panics row then none else (call_async_row lib row (w.schedule row) (w.caches row)).1

  pub task_result-calm :
      (w : World) (row : QueueRow lib.numbers.N)
      → w.panics row ≡ false
      → task_result w row ≡ (call_async_row lib row (w.schedule row) (w.caches row)).1
  task_result-calm w row e = rw (e) refl

  -- A worker whose tasks are runs of `call_async_row`.
  abbrev pub live : Runtime lib.numbers.N → World → Runtime lib.numbers.N
  live rt w = record rt { finish = task_result w }

  -- The results of such tasks keep the ids of their rows.
  pub live-KeepsIds : (rt : Runtime lib.numbers.N) (w : World) → KeepsIds (live rt w)
  live-KeepsIds rt w row r h = go (w.panics row) refl
    where
      go : (b : Bool) → w.panics row ≡ b → r.id ≡ row.id
      go true e = let h' = rw e at h in cc
      go false e = call_async_row-id row (w.schedule row) (w.caches row) r (rw e at h)
