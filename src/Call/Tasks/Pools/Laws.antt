-- ===== src/Call/Tasks/Pools/Laws.antt =====
-- Every request of src/call.rs is encoded by descriptors that are as good as the registered and the
-- fetched ones.
use mathlib.Core.List.{[]}
use pg_grpc.Common.{ℕ, ◌≡◌, sym, subst, String, Option, ok, All}
use pg_grpc.Common.Alls.{All-middle, All-insert, All-snoc}
use pg_grpc.ChannelCache.{store, connect_to}
use pg_grpc.Proto.Fetch.{fetch_pool}
use pg_grpc.Call.Network.{Libraries}
use pg_grpc.Call.Async.{
  Request, Caches, Prepared, Stage, connecting, fetching, readying, calling, finished, begin,
  resume,
}
use pg_grpc.Call.Tasks.{Process, Step, spawns, resumes, drops, Reach, here, next}
use pg_grpc.Call.Tasks.Shared.{Sends, about_to, has_sent}
use pg_grpc.Call.Tasks.Pools.{
  GoodRegistry, Made, MadeAt, Leaves, begin-Leaves, connected-Leaves, fetched-Leaves,
  is_ready-MadeAt,
}

module _ (lib : Libraries) (Good : String → lib.descriptors.DescriptorPool → Type 0) where
  -- Whatever reflection yields has the property.
  abbrev pub GoodFetches : Type 0
  GoodFetches =
      (now : ℕ) (channel : lib.transport.Channel) (service : String)
      (max_decode max_encode : Option ℕ) (pool : lib.descriptors.DescriptorPool)
      → fetch_pool (lib.reflection now channel) service max_decode max_encode ≡ ok pool
      → Good service pool

  -- The registry and all tasks have it.
  abbrev pub GoodProcess : Process lib → Type 0
  GoodProcess t = GoodRegistry lib Good t.caches.registry × All (MadeAt lib Good) t.tasks

  module _ (fetches : GoodFetches) where
    resume-Leaves :
        (a : Request lib.numbers.N) (now : ℕ) (c : Caches lib) (st : Stage lib)
        → GoodRegistry lib Good c.registry
        → MadeAt lib Good (a, st)
        → Leaves lib Good a (resume lib a now c st)
    unfolding resume
    resume-Leaves a now c (connecting s m key builder) g made =
        connected-Leaves lib Good a s m c
          (store lib.transport key (connect_to lib.transport now key.0 builder) c.channels) g
    resume-Leaves a now c (fetching s m ch) g made =
        fetched-Leaves lib Good a s m ch c _ (fetches now ch s a.max_decode a.max_encode) g
    resume-Leaves a now c (readying p) g made =
        (g, is_ready-MadeAt lib Good a p (lib.ready now p.grpc) made)
    resume-Leaves a now c (calling p md) g made = (g, tt)
    resume-Leaves a now c (finished r) g made = (g, tt)

    Step-GoodProcess : (s t : Process lib) → GoodProcess s → Step lib s t → GoodProcess t
    Step-GoodProcess s t (g, all) (spawns a) =
        let (g', made) = begin-Leaves lib Good a s.caches g in
        (g', All-snoc (MadeAt lib Good) s.tasks (a, (begin lib a s.caches).1) made all)
    Step-GoodProcess s t (g, all) (resumes now before a stage after e) =
        let (own, others) =
          All-middle (MadeAt lib Good) before (a, stage) after
            (subst (All (MadeAt lib Good)) e all) in
        let (g', made) = resume-Leaves a now s.caches stage g own in
        (
          g',
          All-insert (MadeAt lib Good) before (a, (resume lib a now s.caches stage).1) after made
              others,
        )
    Step-GoodProcess s t (g, all) (drops before task after e) = (
      g,
      (All-middle (MadeAt lib Good) before task after (subst (All (MadeAt lib Good)) e all)).1,
    )

    Reach-GoodProcess :
        (s t : Process lib)
        → s.tasks ≡ []
        → GoodRegistry lib Good s.caches.registry
        → Reach lib s t
        → GoodProcess t
    Reach-GoodProcess s t e g here = (g, subst (All (MadeAt lib Good)) (sym e) tt)
    Reach-GoodProcess s t e g (next {t = u} r step) =
        Step-GoodProcess u t (Reach-GoodProcess s u e g r) step

    Sends-Made :
        (t : Process lib) (a : Request lib.numbers.N) (p : Prepared lib)
        → GoodProcess t
        → Sends lib t a p
        → Made lib Good a p
    Sends-Made t a p (g, all) (about_to before after e) =
        (All-middle (MadeAt lib Good) before (a, readying p) after
          (subst (All (MadeAt lib Good)) e all)).0
    Sends-Made t a p (g, all) (has_sent before after md e) =
        (All-middle (MadeAt lib Good) before (a, calling p md) after
          (subst (All (MadeAt lib Good)) e all)).0

    -- Take any property of a service's descriptors that the registered ones have at the start and that
    -- all have which reflection yields. In every interleaving of the calls of a process the registered
    -- ones keep it, and each request that is sent was resolved and encoded by descriptors that have it.
    pub good_requests :
        (s t : Process lib)
        → s.tasks ≡ []
        → GoodRegistry lib Good s.caches.registry
        → Reach lib s t
        → GoodRegistry lib Good t.caches.registry
          × ((a : Request lib.numbers.N) (p : Prepared lib) → Sends lib t a p → Made lib Good a p)
    good_requests s t e g reach =
        let good = Reach-GoodProcess s t e g reach in
        (good.0, λ a p sends. Sends-Made t a p good sends)
