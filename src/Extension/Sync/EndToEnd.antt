-- ===== src/Extension/Sync/EndToEnd.antt =====
-- The whole way of a queued call: `grpc_call_async` queues it, the worker drains the queue, and the
-- session looks its answer up.
use mathlib.Core.List.{Mem, Nodup, mem-append, mem-cons_self}
use mathlib.Core.Logic.Or
use pg_grpc.Common.{
  ℕ, ◌≤◌, ◌<◌, length, ◌≡◌, refl, sym, ap, ◌∙◌, subst, String, false, Option, some, ok, Result,
}
use pg_grpc.Json.{Value}
use pg_grpc.Queue.{QueueRow, CallOutcome, CallResult, Db, lookup}
use pg_grpc.Queue.Lookup.{reported}
use pg_grpc.Worker.{Runtime, drain, idle}
use pg_grpc.Worker.Batch.{due_of}
use pg_grpc.Worker.Rounds.{known, cleanup}
use pg_grpc.Worker.Kept.{Storable}
use pg_grpc.Worker.Drain.{drain_total}
use pg_grpc.Worker.Answered.{lookup-drain}
use pg_grpc.Call.Network.{Libraries}
use pg_grpc.Call.Timed.Laws.{OthersGrow}
use pg_grpc.Call.Row.Laws.{World, task_result-calm, live, live-KeepsIds}
use pg_grpc.Extension.Enqueue.{Session, grpc_call_async}
use pg_grpc.Extension.Sync.{grpc_call}
use pg_grpc.Extension.Sync.Laws.{Agrees, queued_row, grpc_call_async-AnswersAlike}

module _ (lib : Libraries) where
  -- A result of the queue that agrees with an answer of `grpc_call` is there.
  Agrees-some :
      (id t : ℕ) (sync : Option (Result String (Value lib.numbers.N)))
      (queued : Option (CallResult lib.numbers.N))
      → Agrees lib id t sync queued
      → (o : CallOutcome lib.numbers.N) × (queued ≡ some (record { id = id; outcome = o }))
  Agrees-some id t sync queued (Agrees.same_value v) = (CallOutcome.success v, refl)
  Agrees-some id t sync queued (Agrees.same_error text) = (CallOutcome.error text, refl)
  Agrees-some id t sync queued Agrees.both_late = (_, refl)

  module _ (numbers : Discrete lib.numbers.N) (rt : Runtime lib.numbers.N) (w : World lib)
      (size : 1 ≤ rt.batch_size)
      (kept : (j : ℕ) (d : Db lib.numbers.N) → cleanup (live lib rt w) j d ≡ d)
      (quiet : (j : ℕ) → rt.sigterm_received j ≡ false)
      (grow : (row : QueueRow lib.numbers.N) → OthersGrow (w.schedule row)) where
    -- While the clean-up deletes nothing and raises no ERROR, no SIGTERM arrives, and PostgreSQL accepts
    -- the results that the queued calls are due: a call that `grpc_call_async`
    -- accepted, and that waits in a queue with whatever other calls there are, is answered under its
    -- id when the worker has drained the queue, which it does in more rounds than there are calls.
    -- The answer is the one that `grpc_call` would give on the schedule and the caches that its task
    -- meets, if the task does not panic.
    pub queued_call_answered :
        (endpoint method : String) (request : Value lib.numbers.N)
        (metadata options : Option (Value lib.numbers.N)) (s s' : Session lib.numbers.N) (id : ℕ)
        (fuel k : ℕ) (db : Db lib.numbers.N)
        → grpc_call_async lib.numbers endpoint method request metadata options s ≡ ok (s', id)
        → ((row : QueueRow lib.numbers.N) → Mem row s'.db.call_queue → Mem row db.call_queue)
        → Nodup (known db)
        → Storable (live lib rt w) db
        → ((row : QueueRow lib.numbers.N) → row.id ≡ id → w.panics row ≡ false)
        → length db.call_queue < fuel
        → (db' : Db lib.numbers.N) × (drain (live lib rt w) fuel k db ≡ idle db')
          × ((t : ℕ) × (o : CallOutcome lib.numbers.N) × (let row =
                  queued_row lib endpoint method request metadata options t id in
                Agrees lib id t
                  (grpc_call lib endpoint method request metadata options
                    (ok tt)
                    (w.schedule row)
                    (w.caches row)).1
                  (some (record { id = id; outcome = o })))
              × (lookup id db' ≡ record { id = id; status = reported o }))
    queued_call_answered endpoint method request metadata options s s' id fuel k db h waits distinct
          fine calm enough =
        let (db', drained, emptied, once) =
          drain_total (live lib rt w) (live-KeepsIds lib rt w) size fuel k db quiet distinct fine
            enough in
        let (t, q, alike) =
          grpc_call_async-AnswersAlike lib endpoint method request metadata options s s' id h in
        let row = queued_row lib endpoint method request metadata options t id in
        let agrees = (alike (w.schedule row) (w.caches row) (grow row)).1 in
        let (o, e) = Agrees-some id t _ _ agrees in
        let in_queue : Mem row db.call_queue =
          waits row (subst (Mem row) (sym q) (mem-append.1 (Or.inr mem-cons_self))) in
        let answer = task_result-calm lib w row (calm row refl) ∙ e in
        (
          db',
          drained,
          (
            t,
            o,
            subst (Agrees lib id t _) e agrees,
            lookup-drain numbers (live lib rt w) (live-KeepsIds lib rt w) fuel k db db' row size
                  kept distinct in_queue drained
                ∙ ap (λ r. record { id = id; status = reported (due_of id r).outcome }) answer,
          ),
        )
