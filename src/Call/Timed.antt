-- ===== src/Call/Timed.antt =====
-- The run of a call under its timeout: `make_grpc_call` of src/call.rs, and what `tokio::time::timeout`
-- makes of `call_async`.
pub mod Laws
pub mod Warm
pub mod Late
pub mod Tests
use pg_grpc.Common.{
  ℕ, zero, suc, String, Bool, true, false, Option, none, some, Result, ok, err, map_err,
}
use pg_grpc.Errors.{GrpcResult, connection, timeout}
use pg_grpc.Json.{Value}
use pg_grpc.Tls.{TlsConfig}
use pg_grpc.Call.Network.{Libraries}
use pg_grpc.Call.Async.{
  Request, Caches, Stage, connecting, fetching, readying, calling, finished, begin, resume,
}

-- What befalls a run. The waits of a call are counted: at each, the time at which its reply comes,
-- whether that is before the deadline, and what other tasks make of the caches meanwhile.
pub record Schedule (lib : Libraries) : Type 0 where
  pub now : ℕ → ℕ
  pub in_time : ℕ → Bool
  pub others : ℕ → Caches lib → Caches lib

-- How a run ends: with the call's result; by the timeout; or not within the waits that are allowed.
pub data Ended (A : Type 0) : Type 0 where
  completed : GrpcResult A → Ended A
  elapsed : Ended A
  unfinished : Ended A

-- A call has four waits at most.
abbrev pub waits : ℕ
waits = 4

module _ (lib : Libraries) (a : Request lib.numbers.N) (sched : Schedule lib) where
  -- The call from a stage, for so many waits at most, from wait `k`.
  unfoldable pub run : ℕ → ℕ → Caches lib → Stage lib → Caches lib × Ended (Value lib.numbers.N)
  run fuel k c (finished r) = (c, completed r)
  run zero k c stage = (c, unfinished)
  run (suc fuel) k c stage = elim (sched.in_time k) [
    | false ↦ (sched.others k c, elapsed)
    | true ↦
        let (next, after) = resume lib a (sched.now k) (sched.others k c) stage in
        run fuel (suc k) next after
  ]

  -- `timeout(…, call_async(…)).await`. The call runs to its first wait in any case.
  unfoldable pub call_with_timeout : Caches lib → Caches lib × Ended (Value lib.numbers.N)
  unfolding run begin
  call_with_timeout c = let (next, stage) = begin lib a c in run waits 0 next stage

-- What the synchronous path makes of the end of a run; nothing for a run that has not ended.
abbrev pub sync_result : {A : Type 0} → ℕ → Ended A → Option (GrpcResult A)
sync_result timeout_ms (completed r) = some r
sync_result timeout_ms elapsed = some (err (timeout timeout_ms))
sync_result timeout_ms unfinished = none

module _ (lib : Libraries) where
  abbrev on_runtime :
      Request lib.numbers.N
      → ℕ
      → Schedule lib
      → Caches lib
      → Result String (Unit {0})
      → Caches lib × Option (GrpcResult (Value lib.numbers.N))
  on_runtime a timeout_ms sched c (err e) = (c, some (err (connection e)))
  on_runtime a timeout_ms sched c (ok u) =
      let (next, ended) = call_with_timeout lib a sched c in (next, sync_result timeout_ms ended)

  -- `make_grpc_call`, where tokio's runtime is built or is not.
  unfoldable pub make_grpc_call :
      Request lib.numbers.N
      → ℕ
      → Result String (Unit {0})
      → Schedule lib
      → Caches lib
      → Caches lib × Option (GrpcResult (Value lib.numbers.N))
  make_grpc_call a timeout_ms runtime sched c = on_runtime a timeout_ms sched c runtime
