-- ===== src/Call/Row.antt =====
-- `call_async_row` of src/call.rs: a call of the queue, run under its timeout.
pub mod Laws
use pg_grpc.Common.{ℕ, as_u64, Option, none, some, ok, err, Result, unwrap_or, true}
use pg_grpc.Text.{◌⧺◌, display}
use pg_grpc.Errors.{GrpcResult, to_string}
use pg_grpc.Json.{Value}
use pg_grpc.Options
use pg_grpc.Options.{OptionsConfig, default}
use pg_grpc.Queue.{QueueRow, CallOutcome, CallResult}
use pg_grpc.Call.Network.{Libraries}
use pg_grpc.Call.Async.{Request, Caches}
use pg_grpc.Call.Timed.{Schedule, Ended, completed, elapsed, unfinished, call_with_timeout}

module _ (lib : Libraries) where
  -- `opts`: the options of the row, parsed once more.
  unfoldable pub row_options : Option (Value lib.numbers.N) → GrpcResult OptionsConfig
  row_options none = ok default
  row_options (some v) = Options.parse lib.numbers v

  abbrev pub row_request : QueueRow lib.numbers.N → OptionsConfig → Request lib.numbers.N
  row_request row opts = record {
    endpoint = row.endpoint;
    method = row.method;
    request_json = row.request;
    use_reflection = unwrap_or opts.use_reflection true;
    metadata = row.metadata;
    tls = opts.tls;
    max_decode = opts.max_decode_message_size_bytes;
    max_encode = opts.max_encode_message_size_bytes;
  }

  -- The outcome by the end of the run; nothing for a run that has not ended.
  abbrev pub outcome_of : ℕ → Ended (Value lib.numbers.N) → Option (CallOutcome lib.numbers.N)
  outcome_of timeout_ms (completed (ok v)) = some (CallOutcome.success v)
  outcome_of timeout_ms (completed (err e)) = some (CallOutcome.error (to_string e))
  outcome_of timeout_ms elapsed =
      some (CallOutcome.error ("timeout after " ⧺ display timeout_ms ⧺ "ms"))
  outcome_of timeout_ms unfinished = none

  abbrev pub result_of : ℕ → Option (CallOutcome lib.numbers.N) → Option (CallResult lib.numbers.N)
  result_of id none = none
  result_of id (some outcome) = some (record { id = id; outcome = outcome })

  abbrev pub call_row :
      QueueRow lib.numbers.N
      → Schedule lib
      → Caches lib
      → GrpcResult OptionsConfig
      → Caches lib × Option (CallResult lib.numbers.N)
  call_row row sched c (err e) =
      (c, some (record { id = row.id; outcome = CallOutcome.error (to_string e) }))
  call_row row sched c (ok opts) =
      let (next, ended) = call_with_timeout lib (row_request row opts) sched c in
      (next, result_of row.id (outcome_of (as_u64 row.timeout_ms) ended))

  unfoldable pub call_async_row :
      QueueRow lib.numbers.N
      → Schedule lib
      → Caches lib
      → Caches lib × Option (CallResult lib.numbers.N)
  call_async_row row sched c = call_row row sched c (row_options row.options)
