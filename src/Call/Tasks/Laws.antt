-- ===== src/Call/Tasks/Laws.antt =====
-- What holds in every interleaving of a process's calls.
use mathlib.Core.List.{List, [], ◌∷◌, ◌++◌}
use pg_grpc.Common.{◌≤◌, ◌≡◌, sym, subst, arith, All}
use pg_grpc.Common.Alls.{All-middle, All-insert, All-snoc}
use pg_grpc.Call.Network.{Libraries}
use pg_grpc.Call.Async.{
  Caches, Stage, connecting, fetching, readying, calling, finished, begin, resume,
}
use pg_grpc.Call.Async.Finds.{waits_left, Grows, Grows-refl, Grows-trans, Finds, Finds-Grows}
use pg_grpc.Call.Async.Steps.{begin-Leads}
use pg_grpc.Call.Async.Resumes.{resume-Leads}
use pg_grpc.Call.Tasks.{Task, Process, Step, spawns, resumes, drops, Reach, here, next}

module _ {lib : Libraries} where
  waits_left-le : (st : Stage lib) → waits_left st ≤ 5
  waits_left-le (connecting s m key builder) = omega arith
  waits_left-le (fetching s m ch) = omega arith
  waits_left-le (readying p) = omega arith
  waits_left-le (calling p md) = omega arith
  waits_left-le (finished r) = omega arith

  -- Each task has found out what its stage says.
  abbrev pub AllFind : Caches lib → List (Task lib) → Type 0
  AllFind c = All λ task. Finds task.0 c task.1

  AllFind-Grows :
      (c c' : Caches lib) (tasks : List (Task lib))
      → Grows c c'
      → AllFind c tasks
      → AllFind c' tasks
  AllFind-Grows c c' [] g h = tt
  AllFind-Grows c c' (task ∷ tasks) g (f, h) =
      (Finds-Grows task.0 task.1 g f, AllFind-Grows c c' tasks g h)

  abbrev pub FindsIn : Caches lib → Task lib → Type 0
  FindsIn c task = Finds task.0 c task.1

  -- A process after another: its caches have grown, and its tasks have found out what they say.
  abbrev pub Follows : Process lib → Process lib → Type 0
  Follows s t = Grows s.caches t.caches × AllFind t.caches t.tasks

  Step-Follows : (s t : Process lib) → AllFind s.caches s.tasks → Step lib s t → Follows s t
  Step-Follows s t h (spawns a) =
      let (few, g, f) = begin-Leads a s.caches in
      (
        g,
        All-snoc (FindsIn _) s.tasks (a, (begin lib a s.caches).1) f
            (AllFind-Grows _ _ s.tasks g h),
      )
  Step-Follows s t h (resumes now before a stage after e) =
      let (own, others) =
        All-middle (FindsIn s.caches) before (a, stage) after (subst (AllFind s.caches) e h) in
      let (few, g, f) = resume-Leads a 4 now s.caches stage (waits_left-le stage) own in
      (
        g,
        All-insert (FindsIn _) before (a, (resume lib a now s.caches stage).1) after f
            (AllFind-Grows _ _ (before ++ after) g others),
      )
  Step-Follows s t h (drops before task after e) = (
    Grows-refl s.caches,
    (All-middle (FindsIn s.caches) before task after (subst (AllFind s.caches) e h)).1,
  )

  -- From a process without tasks, every interleaving of calls, their timeouts among them, keeps each
  -- channel that is stored and each service that is known; and each task is where what it has found
  -- out puts it, so that a task that has finished with a value has the server's answer to its request.
  pub Reach-Follows : (s t : Process lib) → s.tasks ≡ [] → Reach lib s t → Follows s t
  Reach-Follows s t e here = (Grows-refl s.caches, subst (AllFind s.caches) (sym e) tt)
  Reach-Follows s t e (next {t = u} r step) =
      let (g, h) = Reach-Follows s u e r in
      let (g', h') = Step-Follows u t h step in (Grows-trans g g', h')
