-- ===== src/Wake/Progress.antt =====
-- Once the sessions' callbacks have run, the worker of src/worker.rs can drain the queue from
-- wherever it stands.
use mathlib.Core.List.{Nodup, List, []}
use pg_grpc.Common.{ℕ, suc, ◌<◌, ◌≡◌, refl, ◌∙◌, true, arith, length, Bool-cases, inl, inr}
use pg_grpc.Worker.{Runtime, Round, round}
use pg_grpc.Worker.Batch.{KeepsIds}
use pg_grpc.Worker.Rounds.{known, cleanup, Stores, RoundOf, ended, stores, breaks, round-RoundOf}
use pg_grpc.Worker.Kept.{
  Storable, Storable-not-Breaks, Stores-Storable, Stores-known, queue-cleanup, no_rows,
}
use pg_grpc.Worker.Drain.{Stores-shrinks}
use pg_grpc.Queue.{Db}
use pg_grpc.Wake.{Action}
use pg_grpc.Wake.System.{
  Pc, stopped, starting, waiting, woken, checked, draining, Settings, System, configured,
  WorkerStep, wakes, reloads, no_sighup, takes, stores_batch, finishes, starts, publishes, Reach,
  Works, rests, goes_on,
}
use pg_grpc.Wake.Awake.{
  Holds, Signalled, ringing, past, past_check, down, coming, ringer, Awake, no_calls, at_work,
  marked, owed,
}
use pg_grpc.Wake.Kept.{take_wake-marked, settled-Invariant}
use pg_grpc.Wake.Safety.{Reach-Invariant}

module _ {N : Type 0} (rt : Runtime N) where
  -- A run of the worker's own steps, without one of a session, a signal or a crash, to an empty queue.
  pub record Drains (s : System N) : Type 0 where
    pub end : System N
    pub run : Works rt s end
    pub empty : end.db.call_queue ≡ []
    pub same_callbacks : end.callbacks ≡ s.callbacks

  Drains-after :
      {s t : System N} → WorkerStep rt s t → t.callbacks ≡ s.callbacks → Drains t → Drains s
  Drains-after step e d = record {
    end = d.end;
    run = goes_on step d.run;
    empty = d.empty;
    same_callbacks = d.same_callbacks ∙ e;
  }

  -- The results that the queue's calls are due can be stored, under these settings.
  abbrev pub Fine : Settings → Db N → Type 0
  Fine c db = Storable (configured rt c) db

  module _ (keeps : KeepsIds rt) where
    draining-Drains :
        (fuel : ℕ) (s : System N)
        → s.pc ≡ draining
        → Nodup (known s.db)
        → Fine s.settings s.db
        → length s.db.call_queue < fuel
        → Drains s
    draining-Drains ℕ.zero s e d fine h = absurd (omega arith)
    draining-Drains (suc fuel) s e d fine h =
        go (round own s.rounds s.db) refl
          (round-RoundOf own s.rounds s.db keeps s.settings.positive d)
          (λ db' st.
            draining-Drains fuel (record s { db = db'; rounds = suc s.rounds }) e
              (Stores-known own s.rounds s.db db' keeps st d)
              (Stores-Storable own s.rounds s.db db' st fine)
              (let less = Stores-shrinks own s.rounds s.db db' st in omega arith))
      where
        own : Runtime N
        own = configured rt s.settings

        go :
            (r : Round N)
            → round own s.rounds s.db ≡ r
            → RoundOf own s.rounds s.db r
            → ((db' : Db N)
                → Stores own s.rounds s.db db'
                → Drains (record s { db = db'; rounds = suc s.rounds }))
            → Drains s
        go r eq (ended left b no_call calm) rec = record {
          end = record s { db = cleanup own s.rounds left; pc = waiting; rounds = suc s.rounds };
          run = goes_on (finishes e (cleanup own s.rounds left) eq) rests;
          empty = queue-cleanup own s.rounds left ∙ no_rows own left s.db b.split no_call;
          same_callbacks = refl;
        }
        go r eq (stores db' st) rec = Drains-after (stores_batch e db' eq) refl (rec db' st)
        go r eq (breaks b) rec = absurd (Storable-not-Breaks own s.rounds s.db fine b)

    checked-Drains :
        (s : System N)
        → s.pc ≡ checked
        → s.memory.should_wake ≡ true
        → Nodup (known s.db)
        → Fine s.settings s.db
        → Drains s
    checked-Drains s e mark d fine =
        Drains-after (takes e (take_wake-marked s.memory mark)) refl
          (draining-Drains (suc (length s.db.call_queue)) _ refl d fine (omega arith))

    module _ (s : System N) (mark : s.memory.should_wake ≡ true) (d : Nodup (known s.db))
        (new : Fine s.config s.db) where
      woken-Drains : s.pc ≡ woken → Fine s.settings s.db → Drains s
      woken-Drains e fine = elim (Bool-cases s.sighup) [
        | inl h ↦ Drains-after (reloads e h) refl (checked-Drains _ refl mark d new)
        | inr h ↦ Drains-after (no_sighup e h) refl (checked-Drains _ refl mark d fine)
      ]

    waiting-Drains :
        (s : System N)
        → s.pc ≡ waiting
        → s.memory.should_wake ≡ true
        → s.memory.latch_set ≡ true
        → Nodup (known s.db)
        → Fine s.config s.db
        → Fine s.settings s.db
        → Drains s
    waiting-Drains s e mark set d new fine =
        Drains-after (wakes e set) refl (woken-Drains _ mark d new refl fine)

    starting-Drains :
        (s : System N)
        → s.pc ≡ starting
        → s.memory.should_wake ≡ true
        → Nodup (known s.db)
        → Fine s.config s.db
        → Fine s.settings s.db
        → Drains s
    starting-Drains s e mark d new fine =
        Drains-after (publishes e 1 (omega arith)) refl (waiting-Drains _ refl mark refl d new fine)

    marked-Drains :
        (s : System N) (pc : Pc)
        → s.pc ≡ pc
        → s.memory.should_wake ≡ true
        → Signalled s
        → Nodup (known s.db)
        → ((c : List Action) → Holds c s.callbacks → c ≡ [])
        → Fine s.config s.db
        → Fine s.settings s.db
        → Drains s
    marked-Drains s stopped e mark g d done new fine =
        Drains-after (starts e) refl (starting-Drains _ refl mark d new new)
    marked-Drains s starting e mark g d done new fine = starting-Drains s e mark d new fine
    marked-Drains s woken e mark g d done new fine = woken-Drains s mark d new e fine
    marked-Drains s checked e mark g d done new fine = checked-Drains s e mark d fine
    marked-Drains s draining e mark g d done new fine =
        draining-Drains (suc (length s.db.call_queue)) s e d fine (omega arith)
    marked-Drains s waiting e mark (ringing set) d done new fine =
        waiting-Drains s e mark set d new fine
    marked-Drains s waiting e mark (past h) d done new fine = cc
    marked-Drains s waiting e mark (past_check h) d done new fine = cc
    marked-Drains s waiting e mark (down h) d done new fine = cc
    marked-Drains s waiting e mark (coming h) d done new fine = cc
    marked-Drains s waiting e mark (ringer h) d done new fine = let no_step = done _ h in cc

    settled-Drains :
        (s : System N)
        → Nodup (known s.db)
        → ((c : List Action) → Holds c s.callbacks → c ≡ [])
        → Fine s.config s.db
        → Fine s.settings s.db
        → Awake s
        → Drains s
    settled-Drains s d done new fine (no_calls empty) = record {
      end = s;
      run = rests;
      empty = empty;
      same_callbacks = refl;
    }
    settled-Drains s d done new fine (at_work e) =
        draining-Drains (suc (length s.db.call_queue)) s e d fine (omega arith)
    settled-Drains s d done new fine (marked mark g) =
        marked-Drains s s.pc refl mark g d done new fine
    settled-Drains s d done new fine (owed h) = let no_step = done _ h in cc

    -- From a stopped worker and an empty queue: once the callbacks of a reached state have taken all
    -- their steps, the worker can go on by its own steps alone, without a crash, a signal, a further
    -- commit or a callback, until the queue is empty; if PostgreSQL accepts the results that the
    -- queue's calls are due, and raises no ERROR in a clean-up under the settings that the worker has
    -- or would load.
    pub reached-Drains :
        (s t : System N)
        → s.pc ≡ stopped
        → s.db.call_queue ≡ []
        → Nodup (known s.db)
        → Reach rt s t
        → ((c : List Action) → Holds c t.callbacks → c ≡ [])
        → Fine t.config t.db
        → Fine t.settings t.db
        → Drains t
    reached-Drains s t e empty distinct r done new fine =
        let i = Reach-Invariant rt keeps s t (settled-Invariant s e empty distinct) r in
        settled-Drains t i.distinct done new fine i.awake
