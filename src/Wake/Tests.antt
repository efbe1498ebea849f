-- ===== src/Wake/Tests.antt =====
-- A run of the whole system: the worker starts, a session commits two calls, and its callback takes
-- both its steps.
use mathlib.Core.List.{Nodup, List, [], ◌∷◌}
use pg_grpc.Common.{ℕ, ◌≡◌, refl, inl, inr, true, false, arith, contains, nat_eq}
use pg_grpc.Common.Members.{distinct-Nodup}
use pg_grpc.Queue.{Db}
use pg_grpc.Queue.Tests.{busy}
use pg_grpc.Worker.Rounds.{known}
use pg_grpc.Worker.Tests.{sample, echo_keeps}
use pg_grpc.Wake.{Action, mark_wake, signal, commit, abort, pre_commit, wake_worker_on_commit}
use pg_grpc.Wake.System.{
  stopped, waiting, Settings, System, with_calls, works, commits, acts, configures, hangs_up,
  starts, publishes, Reach, here, next,
}
use pg_grpc.Wake.Awake.{Holds, Awake}
use pg_grpc.Wake.Safety.{no_lost_wake_up}
use pg_grpc.Wake.Progress.{Drains, reached-Drains}

abbrev empty_db : Db ℕ
empty_db = record { next_id = busy.next_id; call_queue = []; call_result = [] }

abbrev defaults : Settings
defaults = record { batch_size = 2; ttl = "6 hours"; positive = omega arith }

abbrev larger : Settings
larger = record { batch_size = 50; ttl = "1 day"; positive = omega arith }

abbrev booted : System ℕ
booted = record {
  db = empty_db;
  memory = record { should_wake = false; worker_latch = 0; latch_set = false };
  pc = stopped;
  callbacks = [];
  rounds = 0;
  config = defaults;
  settings = defaults;
  sighup = false;
}

abbrev ready : System ℕ
ready = record booted {
  memory = record { should_wake = false; worker_latch = 7; latch_set = true };
  pc = waiting;
}

abbrev committed : System ℕ
committed = record ready {
  db = with_calls busy.call_queue empty_db;
  callbacks = (mark_wake ∷ signal ∷ []) ∷ [];
}

abbrev called_back : System ℕ
called_back = record committed {
  config = larger;
  sighup = true;
  memory = record { should_wake = true; worker_latch = 7; latch_set = true };
  callbacks = [] ∷ [];
}

nothing_distinct : Nodup (known empty_db)
unfolding contains
nothing_distinct = distinct-Nodup (known empty_db) refl

calls_distinct : Nodup (known (with_calls busy.call_queue empty_db))
unfolding contains
calls_distinct = distinct-Nodup (known (with_calls busy.call_queue empty_db)) refl

to_ready : Reach sample booted ready
to_ready = next (next here (works (starts refl))) (works (publishes refl 7 (omega arith)))

to_committed : Reach sample booted committed
unfolding wake_worker_on_commit
to_committed = next to_ready (commits busy.call_queue calls_distinct)

to_called_back : Reach sample booted called_back
to_called_back =
    next
      (next (next (next to_committed (acts [] mark_wake (signal ∷ []) [] refl)) (configures larger))
        (hangs_up (λ e. cc)))
      (acts [] signal [] [] refl)

taken : (c : List Action) → Holds c called_back.callbacks → c ≡ []
taken c (inl e) = cc
taken c (inr h) = absurd h

no_lost_wake_up_example : Awake committed
no_lost_wake_up_example =
    no_lost_wake_up sample echo_keeps booted committed refl refl nothing_distinct to_committed

reached-Drains_example : Drains sample called_back
reached-Drains_example =
    reached-Drains sample echo_keeps booted called_back refl refl nothing_distinct to_called_back
      taken (record { accepted = λ r m. refl; no_raise = λ j p. cc })
      (record { accepted = λ r m. refl; no_raise = λ j p. cc })

-- Only a commit with the flag up gives the callback steps to take.
commit_idle : wake_worker_on_commit commit false ≡ (false, [])
unfolding wake_worker_on_commit
commit_idle = refl

abort_active : wake_worker_on_commit abort true ≡ (false, [])
unfolding wake_worker_on_commit
abort_active = refl

pre_commit_active : wake_worker_on_commit pre_commit true ≡ (true, [])
unfolding wake_worker_on_commit
pre_commit_active = refl
