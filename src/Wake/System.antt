-- ===== src/Wake/System.antt =====
-- The worker and the committing sessions as one system: each step is an atomic action of one of
-- them, so that a run is any interleaving.
use mathlib.Core.List.{Nodup, List, [], ◌∷◌, ◌++◌}
use pg_grpc.Common.{ℕ, suc, String, Bool, ◌≤◌, ◌<◌, ◌≡◌, ◌≢◌, true, false}
use pg_grpc.Queue.{QueueRow, Db}
use pg_grpc.Worker.{Runtime, drained, stored_batch, round}
use pg_grpc.Worker.Rounds.{known}
use pg_grpc.Wake.{
  Shmem, Action, commit, wake_worker_on_commit, perform, store_latch, clear_latch, on_worker_exit,
  take_wake,
}

-- Where the worker stands: not running; before it has published its latch; in `wait_latch`; past
-- it; past its check for SIGHUP; or in the inner loop.
pub data Pc : Type 0 where
  stopped starting waiting woken checked draining : Pc

-- The settings that the inner loop reads; src/guc.rs allows no batch size of 0.
pub record Settings : Type 0 where
  pub batch_size : ℕ
  pub ttl : String
  pub positive : 1 ≤ batch_size

pub record System (N : Type 0) : Type 0 where
  pub db : Db N
  pub memory : Shmem
  pub pc : Pc
  -- The steps that each committed session has still to take in its callback.
  pub callbacks : List (List Action)
  -- The rounds of the inner loop so far.
  pub rounds : ℕ
  -- What the configuration says, what the worker has loaded of it, and whether a SIGHUP is pending.
  pub config : Settings
  pub settings : Settings
  pub sighup : Bool

abbrev pub with_calls : {N : Type 0} → List (QueueRow N) → Db N → Db N
with_calls rows db = record db { call_queue = db.call_queue ++ rows }

-- The inner loop under the settings that the worker has loaded.
abbrev pub configured : {N : Type 0} → Runtime N → Settings → Runtime N
configured rt c = record rt { batch_size = c.batch_size; ttl = c.ttl }

module _ {N : Type 0} (rt : Runtime N) where
  -- The steps of the worker's process, from its start on.
  pub data WorkerStep (s : System N) : System N → Type 0 where
    -- It starts, and publishes its latch. PostgreSQL hands a new process its latch set.
    starts :
        s.pc ≡ stopped
        → WorkerStep s (record s {
          memory = clear_latch s.memory;
          pc = starting;
          settings = s.config;
          sighup = false;
        })
    publishes :
        s.pc ≡ starting
        → (latch : ℕ) → 0 < latch
        → WorkerStep s (record s {
          memory = record (store_latch latch s.memory) { latch_set = true };
          pc = waiting;
        })
    -- `wait_latch` returns once the latch is set, and resets it.
    wakes :
        s.pc ≡ waiting
        → s.memory.latch_set ≡ true
        → WorkerStep s (record s { memory = record s.memory { latch_set = false }; pc = woken })
    -- `sighup_received` takes the signal, and the configuration is read again.
    reloads :
        s.pc ≡ woken
        → s.sighup ≡ true
        → WorkerStep s (record s { pc = checked; settings = s.config; sighup = false })
    no_sighup : s.pc ≡ woken → s.sighup ≡ false → WorkerStep s (record s { pc = checked })
    -- The exchange of `should_wake`.
    takes :
        s.pc ≡ checked
        → (take_wake s.memory).1 ≡ true
        → WorkerStep s (record s { memory = (take_wake s.memory).0; pc = draining })
    skips :
        s.pc ≡ checked
        → (take_wake s.memory).1 ≡ false
        → WorkerStep s (record s { memory = (take_wake s.memory).0; pc = waiting })
    -- Rounds of the inner loop.
    stores_batch :
        s.pc ≡ draining
        → (db' : Db N) → round (configured rt s.settings) s.rounds s.db ≡ stored_batch db'
        → WorkerStep s (record s { db = db'; rounds = suc s.rounds })
    finishes :
        s.pc ≡ draining
        → (db' : Db N) → round (configured rt s.settings) s.rounds s.db ≡ drained db'
        → WorkerStep s (record s { db = db'; pc = waiting; rounds = suc s.rounds })

  pub data Step (s : System N) : System N → Type 0 where
    works : {t : System N} → WorkerStep s t → Step s t
    -- A session commits calls, under ids that nothing has yet; then its callback runs.
    commits :
        (rows : List (QueueRow N))
        → Nodup (known (with_calls rows s.db))
        → Step s (record s {
          db = with_calls rows s.db;
          callbacks = s.callbacks ++ (wake_worker_on_commit commit true).1 ∷ [];
        })
    -- Some callback takes its next step.
    acts :
        (before : List (List Action)) (a : Action) (rest : List Action) (after : List (List Action))
        → s.callbacks ≡ before ++ (a ∷ rest) ∷ after
        → Step s (record s { memory = perform a s.memory; callbacks = before ++ rest ∷ after })
    -- The configuration changes, and a SIGHUP arrives, which sets the running worker's latch.
    configures : (new : Settings) → Step s (record s { config = new })
    hangs_up :
        s.pc ≢ stopped
        → Step s (record s { memory = record s.memory { latch_set = true }; sighup = true })
    -- The worker stops, by SIGTERM or a panic; a round's transaction that was open is undone.
    exits : s.pc ≢ stopped → Step s (record s { memory = on_worker_exit s.memory; pc = stopped })
    -- It may fail to start, before its exit hook is there.
    fails : s.pc ≡ starting → Step s (record s { pc = stopped })

  pub data Reach (s : System N) : System N → Type 0 where
    here : Reach s s
    next : {t u : System N} → Reach s t → Step t u → Reach s u

  -- A run of the worker alone.
  pub data Works : System N → System N → Type 0 where
    rests : {s : System N} → Works s s
    goes_on : {s t u : System N} → WorkerStep s t → Works t u → Works s u
