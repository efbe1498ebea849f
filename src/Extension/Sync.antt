-- ===== src/Extension/Sync.antt =====
-- `grpc_call` of src/lib.rs: a call that the session waits for.
pub mod Laws
pub mod EndToEnd
mod Tests
use pg_grpc.Common.{ℕ, String, Option, none, some, Result, ok, err, unwrap_or, true}
use pg_grpc.Errors.{GrpcResult, to_string}
use pg_grpc.Json.{Value}
use pg_grpc.Options.{OptionsConfig}
use pg_grpc.Call.Network.{Libraries}
use pg_grpc.Call.Async.{Request, Caches}
use pg_grpc.Call.Timed.{Schedule, make_grpc_call}
use pg_grpc.Extension.Enqueue.{or_error, read_options}

module _ (lib : Libraries) where
  abbrev pub call_request :
      String
      → String
      → Value lib.numbers.N
      → Option (Value lib.numbers.N)
      → OptionsConfig
      → Request lib.numbers.N
  call_request endpoint method request metadata opts = record {
    endpoint = endpoint;
    method = method;
    request_json = request;
    use_reflection = unwrap_or opts.use_reflection true;
    metadata = metadata;
    tls = opts.tls;
    max_decode = opts.max_decode_message_size_bytes;
    max_encode = opts.max_encode_message_size_bytes;
  }

  abbrev pub raised :
      Option (GrpcResult (Value lib.numbers.N)) → Option (Result String (Value lib.numbers.N))
  raised none = none
  raised (some r) = some (or_error r)

  abbrev pub call_with :
      (OptionsConfig → Request lib.numbers.N)
      → Result String (Unit {0})
      → Schedule lib
      → Caches lib
      → GrpcResult OptionsConfig
      → Caches lib × Option (Result String (Value lib.numbers.N))
  call_with request runtime sched c (err e) = (c, some (err (to_string e)))
  call_with request runtime sched c (ok opts) =
      let (next, r) =
        make_grpc_call lib (request opts) (unwrap_or opts.timeout_ms 30000) runtime sched c in
      (next, raised r)

  -- The value that the function returns or the text of the error that it raises; nothing while its run
  -- has not ended.
  unfoldable pub grpc_call :
      String
      → String
      → Value lib.numbers.N
      → Option (Value lib.numbers.N)
      → Option (Value lib.numbers.N)
      → Result String (Unit {0})
      → Schedule lib
      → Caches lib
      → Caches lib × Option (Result String (Value lib.numbers.N))
  unfolding make_grpc_call
  grpc_call endpoint method request metadata options runtime sched c =
      call_with (call_request endpoint method request metadata) runtime sched c
        (read_options lib.numbers options)
