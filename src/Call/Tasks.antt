-- ===== src/Call/Tasks.antt =====
-- The calls that a process runs at once, as the tasks of src/worker.rs: each step takes one of them from
-- a wait to the next, so that a run is any interleaving of their pieces over the shared caches.
pub mod Laws
pub mod Shared
pub mod Pools
mod Tests
use mathlib.Core.List.{List, [], ◌∷◌, ◌++◌}
use pg_grpc.Common.{ℕ, ◌≡◌}
use pg_grpc.Call.Network.{Libraries}
use pg_grpc.Call.Async.{Request, Caches, Stage, begin, resume}

module _ (lib : Libraries) where
  abbrev pub Task : Type 0
  Task = Request lib.numbers.N × Stage lib

  pub record Process : Type 0 where
    pub caches : Caches lib
    pub tasks : List Task

  pub data Step (s : Process) : Process → Type 0 where
    -- A new task runs to its first wait.
    spawns :
        (a : Request lib.numbers.N)
        → Step s (record {
          caches = (begin lib a s.caches).0;
          tasks = s.tasks ++ (a, (begin lib a s.caches).1) ∷ [];
        })
    -- The reply comes that a task waits for.
    resumes :
        (now : ℕ) (before : List Task) (a : Request lib.numbers.N) (stage : Stage lib)
        (after : List Task)
        → s.tasks ≡ before ++ (a, stage) ∷ after
        → Step s (record {
          caches = (resume lib a now s.caches stage).0;
          tasks = before ++ (a, (resume lib a now s.caches stage).1) ∷ after;
        })
    -- A task goes: it has its result, or its timeout has elapsed.
    drops :
        (before : List Task) (task : Task) (after : List Task)
        → s.tasks ≡ before ++ task ∷ after
        → Step s (record s { tasks = before ++ after })

  pub data Reach (s : Process) : Process → Type 0 where
    here : Reach s s
    next : {t u : Process} → Reach s t → Step t u → Reach s u
