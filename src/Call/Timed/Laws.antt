-- ===== src/Call/Timed/Laws.antt =====
-- A call under its timeout ends within its four waits; what it returns is the server's answer.
use pg_grpc.Common.{
  ℕ, zero, suc, ◌≤◌, ◌≡◌, ◌⊎◌, refl, subst, inl, inr, true, false, ok, err, arith, Bool-cases,
}
use pg_grpc.Errors.{GrpcResult}
use pg_grpc.Json.{Value}
use pg_grpc.Call.Network.{Libraries}
use pg_grpc.Call.Async.{
  Request, Caches, Stage, connecting, fetching, readying, calling, finished, begin, resume,
}
use pg_grpc.Call.Async.Finds.{
  waits_left, Grows, Grows-refl, Grows-trans, Answers, Finds, Finds-Grows,
}
use pg_grpc.Call.Async.Steps.{begin-Leads}
use pg_grpc.Call.Async.Resumes.{resume-Leads}
use pg_grpc.Call.Timed.{
  Schedule, Ended, completed, elapsed, unfinished, waits, run, call_with_timeout,
}

module _ {lib : Libraries} where
  -- Other tasks take nothing out of the caches.
  abbrev pub OthersGrow : Schedule lib → Type 0
  OthersGrow sched = (k : ℕ) (c : Caches lib) → Grows c (sched.others k c)

module _ {lib : Libraries} (a : Request lib.numbers.N) where
  -- A good end of a run: a value is the server's answer, and the run has ended.
  abbrev pub EndsWell : Caches lib → Ended (Value lib.numbers.N) → Type 0
  EndsWell c (completed (ok v)) = Answers a c v
  EndsWell c (completed (err e)) = Unit
  EndsWell c elapsed = Unit
  EndsWell c unfinished = ⊥

  pub finished_or_waits :
      (st : Stage lib)
      → ((r : GrpcResult (Value lib.numbers.N)) × (st ≡ finished r)) ⊎ (1 ≤ waits_left st)
  finished_or_waits (connecting s m key builder) = inr (omega arith)
  finished_or_waits (fetching s m ch) = inr (omega arith)
  finished_or_waits (readying p) = inr (omega arith)
  finished_or_waits (calling p md) = inr (omega arith)
  finished_or_waits (finished r) = inl (r, refl)

  pub run_late :
      (sched : Schedule lib) (fuel k : ℕ) (c : Caches lib) (st : Stage lib)
      → 1 ≤ waits_left st
      → sched.in_time k ≡ false
      → run lib a sched (suc fuel) k c st ≡ (sched.others k c, elapsed)
  unfolding run
  run_late sched fuel k c (connecting s m key builder) w e = rw (e, run) refl
  run_late sched fuel k c (fetching s m ch) w e = rw (e, run) refl
  run_late sched fuel k c (readying p) w e = rw (e, run) refl
  run_late sched fuel k c (calling p md) w e = rw (e, run) refl
  run_late sched fuel k c (finished r) w e = absurd (omega arith)

  abbrev step : Schedule lib → ℕ → Caches lib → Stage lib → Caches lib × Stage lib
  step sched k c st = resume lib a (sched.now k) (sched.others k c) st

  pub run_on :
      (sched : Schedule lib) (fuel k : ℕ) (c : Caches lib) (st : Stage lib)
      → 1 ≤ waits_left st
      → sched.in_time k ≡ true
      → run lib a sched (suc fuel) k c st
        ≡ run lib a sched fuel (suc k) (step sched k c st).0 (step sched k c st).1
  unfolding run
  run_on sched fuel k c (connecting s m key builder) w e = rw (e, run) refl
  run_on sched fuel k c (fetching s m ch) w e = rw (e, run) refl
  run_on sched fuel k c (readying p) w e = rw (e, run) refl
  run_on sched fuel k c (calling p md) w e = rw (e, run) refl
  run_on sched fuel k c (finished r) w e = absurd (omega arith)

  pub run_finished :
      (sched : Schedule lib) (fuel k : ℕ) (c : Caches lib) (r : GrpcResult (Value lib.numbers.N))
      → run lib a sched fuel k c (finished r) ≡ (c, completed r)
  unfolding run
  run_finished sched zero k c r = refl
  run_finished sched (suc fuel) k c r = refl

  -- A run from some caches ends well, and they have grown.
  abbrev pub Runs : Caches lib → Caches lib × Ended (Value lib.numbers.N) → Type 0
  Runs c r = EndsWell r.0 r.1 × Grows c r.0

  completed-Runs :
      (c : Caches lib) (r : GrpcResult (Value lib.numbers.N))
      → Finds a c (finished r)
      → Runs c (c, completed r)
  completed-Runs c (ok v) f = (f, Grows-refl c)
  completed-Runs c (err e) f = (tt, Grows-refl c)

  module _ (sched : Schedule lib) (grow : OthersGrow sched) where
    run-Runs :
        (fuel k : ℕ) (c : Caches lib) (st : Stage lib)
        → waits_left st ≤ fuel
        → Finds a c st
        → Runs c (run lib a sched fuel k c st)
    run-Runs zero k c st le f = elim (finished_or_waits st) [
      | inl (r, e) ↦ rw (e, run_finished sched 0 k c r) (completed-Runs c r (subst (Finds a c) e f))
      | inr w ↦ absurd (omega arith)
    ]
    run-Runs (suc fuel) k c st le f = elim (finished_or_waits st) [
      | inl (r, e) ↦
          rw (e, run_finished sched (suc fuel) k c r) (completed-Runs c r (subst (Finds a c) e f))
      | inr w ↦ elim (Bool-cases (sched.in_time k)) [
        | inl early ↦
            let seen = Finds-Grows a st (grow k c) f in
            let (fewer, g, f') = resume-Leads a fuel (sched.now k) (sched.others k c) st le seen in
            let (ends, g') =
              run-Runs fuel (suc k) (step sched k c st).0 (step sched k c st).1 fewer f' in
            rw (run_on sched fuel k c st w early) (ends, Grows-trans (grow k c) (Grows-trans g g'))
        | inr late ↦ rw (run_late sched fuel k c st w late) (tt, grow k c)
      ]
    ]

    -- A call under its timeout ends within its four waits: with an error, by the timeout, or with a
    -- value that is the server's decoded answer to the call's encoded request, sent with its metadata
    -- on its channel. The caches keep all that they had.
    pub call_with_timeout-Runs : (c : Caches lib) → Runs c (call_with_timeout lib a sched c)
    unfolding call_with_timeout
    call_with_timeout-Runs c =
        let (few, g, f) = begin-Leads a c in
        let (ends, g') = run-Runs waits 0 (begin lib a c).0 (begin lib a c).1 few f in
        (ends, Grows-trans g g')
