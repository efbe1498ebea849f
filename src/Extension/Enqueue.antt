-- ===== src/Extension/Enqueue.antt =====
-- `grpc_call_async` of src/lib.rs: the checks on a call, its row in the queue, and the flag for the
-- commit callback.
pub mod Laws
pub mod Ids
mod Tests
use pg_grpc.Common.{
  ℕ, ℤ, as_i32, String, Bool, true, Option, none, some, Result, ok, err, ◌>>=◌, ◌>>◌, fail_if,
  map_err, unwrap_or, ltb,
}
use pg_grpc.Text.{◌⧺◌, display}
use pg_grpc.Errors.{GrpcError, GrpcResult, to_string}
use pg_grpc.Json.{Numbers, Value}
use pg_grpc.Options
use pg_grpc.Options.{OptionsConfig, default}
use pg_grpc.Endpoint.{validate_endpoint}
use pg_grpc.Call.Method.{parse_method}
use pg_grpc.Queue.{Db, insert_call}

abbrev pub i32_max : ℕ
i32_max = 2147483647

-- What a session's transaction has: the tables, and WAKE_CB_ACTIVE.
pub record Session (N : Type 0) : Type 0 where
  pub db : Db N
  pub wake_cb_active : Bool

-- `match … { Ok(c) => c, Err(e) => pgrx::error!("{}", e) }`.
abbrev pub or_error : {A : Type 0} → GrpcResult A → Result String A
or_error r = map_err to_string r

-- The timeout of the row: cast to an `i32` that it fits, or an error.
unfoldable pub row_timeout : OptionsConfig → Result String ℤ
row_timeout opts =
    let timeout_raw = unwrap_or opts.timeout_ms 30000 in
    do
      fail_if (ltb i32_max timeout_raw) ("options.timeout_ms must be <= " ⧺ display i32_max)
      ok (as_i32 timeout_raw)

module _ (ns : Numbers) where
  unfoldable pub read_options : Option (Value ns.N) → GrpcResult OptionsConfig
  read_options none = ok default
  read_options (some v) = Options.parse ns v

  unfoldable pub enqueue :
      String
      → String
      → Value ns.N
      → Option (Value ns.N)
      → Option (Value ns.N)
      → ℤ
      → Session ns.N
      → Session ns.N × ℕ
  enqueue endpoint method request metadata options timeout_ms s =
      let (db, id) = insert_call endpoint method request metadata options timeout_ms s.db in
      (record { db = db; wake_cb_active = true }, id)

  unfoldable pub grpc_call_async :
      String
      → String
      → Value ns.N
      → Option (Value ns.N)
      → Option (Value ns.N)
      → Session ns.N
      → Result String (Session ns.N × ℕ)
  grpc_call_async endpoint method request metadata options s = do
    host ← or_error (validate_endpoint endpoint)
    path ← or_error (parse_method method)
    opts ← or_error (read_options options)
    timeout_ms ← row_timeout opts
    ok (enqueue endpoint method request metadata options timeout_ms s)
