-- ===== src/Call/Timed/Late.antt =====
-- When `make_grpc_call` of src/call.rs reports a timeout.
use pg_grpc.Common.{
  ℕ, zero, suc, ◌≤◌, ◌<◌, ◌≡◌, sym, subst, inl, inr, String, false, some, Result, ok, err, arith,
  Bool-cases, ◌+◌,
}
use mathlib.Core.Option.{some-injective}
use pg_grpc.Errors.{GrpcError, GrpcResult, timeout}
use pg_grpc.Errors.InTime.{IsOther, InTime}
use pg_grpc.Json.{Value}
use pg_grpc.Call.Network.{Libraries}
use pg_grpc.Call.Async.{Request, Caches, Stage, connecting, fetching, readying, calling, finished}
use pg_grpc.Call.Async.InTime.{EndsInTime, begin-EndsInTime, resume-EndsInTime}
use pg_grpc.Call.Timed.{
  Schedule, Ended, completed, elapsed, unfinished, waits, run, call_with_timeout, sync_result,
  make_grpc_call,
}
use pg_grpc.Call.Timed.Laws.{finished_or_waits, run_late, run_on, run_finished}

err-injective : {A : Type 0} {x y : GrpcError} → ◌≡◌ {A = GrpcResult A} (err x) (err y) → x ≡ y
err-injective h = cc

timeout-injective : {m n : ℕ} → timeout m ≡ timeout n → m ≡ n
timeout-injective h = cc

module _ {lib : Libraries} where
  -- A wait among those from `k` on, so many of them, that is not over before the deadline.
  abbrev pub MissedFrom : Schedule lib → ℕ → ℕ → Type 0
  MissedFrom sched fuel k = (j : ℕ) × (k ≤ j) × (j < k + fuel) × (sched.in_time j ≡ false)

  -- How a run may end: not with an error that is a timeout, and by the timeout only if a wait was
  -- missed.
  abbrev pub EndsAsTimed : Schedule lib → ℕ → ℕ → Ended (Value lib.numbers.N) → Type 0
  EndsAsTimed sched fuel k (completed r) = InTime r
  EndsAsTimed sched fuel k elapsed = MissedFrom sched fuel k
  EndsAsTimed sched fuel k unfinished = Unit

  EndsAsTimed-later :
      (sched : Schedule lib) (fuel k : ℕ) (e : Ended (Value lib.numbers.N))
      → EndsAsTimed sched fuel (suc k) e
      → EndsAsTimed sched (suc fuel) k e
  EndsAsTimed-later sched fuel k (completed r) h = h
  EndsAsTimed-later sched fuel k elapsed (j, le, lt, missed) = (j, omega arith, omega arith, missed)
  EndsAsTimed-later sched fuel k unfinished h = tt

module _ (lib : Libraries) (a : Request lib.numbers.N) (sched : Schedule lib) where
  finished-EndsAsTimed :
      (fuel k : ℕ) (c : Caches lib) (st : Stage lib) (r : GrpcResult (Value lib.numbers.N))
      → st ≡ finished r
      → EndsInTime st
      → EndsAsTimed sched fuel k (run lib a sched fuel k c st).1
  finished-EndsAsTimed fuel k c st r e h =
      rw (e, run_finished a sched fuel k c r) (subst EndsInTime e h)

  out-EndsAsTimed :
      (k : ℕ) (c : Caches lib) (st : Stage lib)
      → EndsInTime st
      → EndsAsTimed sched 0 k (run lib a sched 0 k c st).1
  unfolding run
  out-EndsAsTimed k c (connecting s m key builder) h = tt
  out-EndsAsTimed k c (fetching s m channel) h = tt
  out-EndsAsTimed k c (readying p) h = tt
  out-EndsAsTimed k c (calling p md) h = tt
  out-EndsAsTimed k c (finished r) h = h

  run-EndsAsTimed :
      (fuel k : ℕ) (c : Caches lib) (st : Stage lib)
      → EndsInTime st
      → EndsAsTimed sched fuel k (run lib a sched fuel k c st).1
  unfolding run
  run-EndsAsTimed zero k c st h = out-EndsAsTimed k c st h
  run-EndsAsTimed (suc fuel) k c st h = elim (finished_or_waits a st) [
    | inl (r, e) ↦ finished-EndsAsTimed (suc fuel) k c st r e h
    | inr w ↦ elim (Bool-cases (sched.in_time k)) [
      | inl early ↦ rw (run_on a sched fuel k c st w early) (
          EndsAsTimed-later sched fuel k _ (
            run-EndsAsTimed fuel (suc k) _ _
              (resume-EndsInTime lib a (sched.now k) (sched.others k c) st h)))
      | inr late ↦ rw (run_late a sched fuel k c st w late) (k, omega arith, omega arith, late)
    ]
  ]

  call_with_timeout-EndsAsTimed :
      (c : Caches lib) → EndsAsTimed sched waits 0 (call_with_timeout lib a sched c).1
  unfolding call_with_timeout
  call_with_timeout-EndsAsTimed c = run-EndsAsTimed waits 0 _ _ (begin-EndsInTime lib a c)

  sync_result-timeout :
      (timeout_ms n : ℕ) (e : Ended (Value lib.numbers.N))
      → EndsAsTimed sched waits 0 e
      → sync_result timeout_ms e ≡ some (err (timeout n))
      → (n ≡ timeout_ms) × ((j : ℕ) × (j < waits) × (sched.in_time j ≡ false))
  sync_result-timeout timeout_ms n (completed (ok v)) h e = cc
  sync_result-timeout timeout_ms n (completed (err x)) h e =
      absurd (subst IsOther (err-injective (some-injective _ _ e)) h)
  sync_result-timeout timeout_ms n elapsed (j, le, lt, missed) e =
      (timeout-injective (err-injective (some-injective _ _ (sym e))), (j, lt, missed))
  sync_result-timeout timeout_ms n unfinished h e = cc

  -- A call reports a timeout only with the time that it was given, and only if one of its four waits
  -- was not over before the deadline: no other error is reported as a timeout.
  pub make_grpc_call-timeout :
      (timeout_ms n : ℕ) (runtime : Result String (Unit {0})) (c : Caches lib)
      → (make_grpc_call lib a timeout_ms runtime sched c).1 ≡ some (err (timeout n))
      → (n ≡ timeout_ms) × ((j : ℕ) × (j < waits) × (sched.in_time j ≡ false))
  unfolding make_grpc_call
  make_grpc_call-timeout timeout_ms n (err e) c h = cc
  make_grpc_call-timeout timeout_ms n (ok u) c h =
      sync_result-timeout timeout_ms n _ (call_with_timeout-EndsAsTimed c) h
