-- ===== src/Extension/Sync/Laws.antt =====
-- A queued call is answered as `grpc_call` would answer it.
use mathlib.Core.List.{[], ◌∷◌, ◌++◌}
use pg_grpc.Common.{
  ℕ, pos, as_u64, ◌≡◌, refl, sym, ap, ◌∙◌, String, Option, none, some, ok, err, Result, unwrap_or,
}
use pg_grpc.Text.{◌⧺◌, display}
use pg_grpc.Errors.{to_string}
use pg_grpc.Json.{Value}
use pg_grpc.Options.{OptionsConfig}
use pg_grpc.Queue.{QueueRow, CallOutcome, CallResult, insert_call}
use pg_grpc.Call.Network.{Libraries}
use pg_grpc.Call.Async.{Request, Caches}
use pg_grpc.Call.Timed.{
  Schedule, Ended, completed, elapsed, unfinished, sync_result, make_grpc_call,
}
use pg_grpc.Call.Timed.Laws.{EndsWell, OthersGrow, call_with_timeout-Runs}
use pg_grpc.Call.Row.{row_options, row_request, outcome_of, result_of, call_async_row}
use pg_grpc.Extension.Enqueue.{Session, read_options, enqueue, grpc_call_async}
use pg_grpc.Extension.Enqueue.Laws.{grpc_call_async-enqueue_iff}
use pg_grpc.Extension.Sync.{raised, grpc_call}

module _ (lib : Libraries) where
  -- The two answers to one call: the same value, the same error, or that it took too long, which the
  -- two paths put in different words.
  pub data Agrees (id timeout_ms : ℕ)
      : Option (Result String (Value lib.numbers.N))
        → Option (CallResult lib.numbers.N)
        → Type 0 where
    same_value :
        (v : Value lib.numbers.N)
        → Agrees id timeout_ms
            (some (ok v))
            (some (record { id = id; outcome = CallOutcome.success v }))
    same_error :
        (text : String)
        → Agrees id timeout_ms
            (some (err text))
            (some (record { id = id; outcome = CallOutcome.error text }))
    both_late :
        Agrees id timeout_ms (some (err ("Request timeout: " ⧺ display timeout_ms ⧺ "ms"))) (
          some (record {
            id = id;
            outcome = CallOutcome.error ("timeout after " ⧺ display timeout_ms ⧺ "ms");
          }))

  ends-Agrees :
      (a : Request lib.numbers.N) (c : Caches lib) (id timeout_ms : ℕ)
      (e : Ended (Value lib.numbers.N))
      → EndsWell a c e
      → Agrees id timeout_ms
          (raised lib (sync_result timeout_ms e))
          (result_of lib id (outcome_of lib timeout_ms e))
  unfolding to_string
  ends-Agrees a c id timeout_ms (completed (ok v)) w = same_value v
  ends-Agrees a c id timeout_ms (completed (err e)) w = same_error (to_string e)
  ends-Agrees a c id timeout_ms elapsed w = both_late
  ends-Agrees a c id timeout_ms unfinished w = absurd w

  row_options-eq-read_options :
      (o : Option (Value lib.numbers.N)) → row_options lib o ≡ read_options lib.numbers o
  unfolding row_options read_options
  row_options-eq-read_options none = refl
  row_options-eq-read_options (some v) = refl

  -- What both paths answer to a row of the queue, on the same schedule and caches.
  abbrev pub AnswersAlike : QueueRow lib.numbers.N → Schedule lib → Caches lib → Type 0
  AnswersAlike row sched c =
      let sync =
        grpc_call lib row.endpoint row.method row.request row.metadata row.options (ok tt) sched
          c in
      let queued = call_async_row lib row sched c in
      (sync.0 ≡ queued.0) × Agrees row.id (as_u64 row.timeout_ms) sync.1 queued.1

  row-AnswersAlike :
      (row : QueueRow lib.numbers.N) (opts : OptionsConfig) (sched : Schedule lib) (c : Caches lib)
      → OthersGrow sched
      → read_options lib.numbers row.options ≡ ok opts
      → unwrap_or opts.timeout_ms 30000 ≡ as_u64 row.timeout_ms
      → AnswersAlike row sched c
  unfolding grpc_call call_async_row make_grpc_call
  row-AnswersAlike row opts sched c grow valid same =
      rw (valid, row_options-eq-read_options row.options ∙ valid, same, grpc_call, call_async_row)
        (
          refl,
          ends-Agrees (row_request lib row opts) _ row.id (as_u64 row.timeout_ms) _
              (call_with_timeout-Runs (row_request lib row opts) sched grow c).0,
        )

  abbrev pub queued_row :
      String
      → String
      → Value lib.numbers.N
      → Option (Value lib.numbers.N)
      → Option (Value lib.numbers.N)
      → ℕ
      → ℕ
      → QueueRow lib.numbers.N
  queued_row endpoint method request metadata options timeout_ms id = record {
    id = id;
    endpoint = endpoint;
    method = method;
    request = request;
    metadata = metadata;
    options = options;
    timeout_ms = pos timeout_ms;
  }

  -- A call that `grpc_call_async` accepts is one new row of the queue, and the answer that the worker's
  -- `call_async_row` gives to that row is the one that `grpc_call` gives to the call, where both run on
  -- the same schedule and caches: the value, or the text of the error, or that it was too late.
  pub grpc_call_async-AnswersAlike :
      (endpoint method : String) (request : Value lib.numbers.N)
      (metadata options : Option (Value lib.numbers.N)) (s s' : Session lib.numbers.N) (id : ℕ)
      → grpc_call_async lib.numbers endpoint method request metadata options s ≡ ok (s', id)
      → (t : ℕ) × (s'.db.call_queue
          ≡ s.db.call_queue ++ queued_row endpoint method request metadata options t id ∷ [])
        × ((sched : Schedule lib) (c : Caches lib)
            → OthersGrow sched
            → AnswersAlike (queued_row endpoint method request metadata options t id) sched c)
  unfolding enqueue insert_call
  grpc_call_async-AnswersAlike endpoint method request metadata options s s' id h =
      let (t, acc, e) =
        (grpc_call_async-enqueue_iff lib.numbers endpoint method request metadata options s
            (s', id)).0
          h in
      (
        t,
        ap (λ r. r.0.db.call_queue) e
            ∙ ap
                (λ i.
                  s.db.call_queue ++ queued_row endpoint method request metadata options t i ∷ [])
                (sym (ap (λ r. r.1) e)),
        λ sched c grow.
            row-AnswersAlike (queued_row endpoint method request metadata options t id) acc.opts
              sched c grow acc.valid_options acc.timeout,
      )
