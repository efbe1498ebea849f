-- ===== src/Wake/Safety.antt =====
-- No wake-up is lost between the commit callback of src/lib.rs and the outer loop of src/worker.rs,
-- in any interleaving of sessions, worker and restarts.
use mathlib.Core.List.{Nodup, [], ◌∷◌}
use pg_grpc.Common.{ℕ, ◌≤◌, ◌≡◌, ◌⊎◌, refl, sym, ap, ◌∙◌, subst, inl, inr, false}
use pg_grpc.Queue.{Db}
use pg_grpc.Worker.{Runtime, Round, stored_batch, drained, round}
use pg_grpc.Worker.Batch.{KeepsIds}
use pg_grpc.Worker.Rounds.{known, RoundOf, ended, stores, breaks, round-RoundOf}
use pg_grpc.Worker.Kept.{Stores-known, queue-cleanup, no_rows, ended-known}
use pg_grpc.Wake.{mark_wake, signal, wake_worker_on_commit, clear_latch}
use pg_grpc.Wake.System.{
  stopped, starting, System, configured, WorkerStep, starts, publishes, wakes, reloads, no_sighup,
  takes, skips, stores_batch, finishes, Step, works, commits, acts, configures, hangs_up, exits,
  fails, Reach, here, next,
}
use pg_grpc.Wake.Awake.{
  Holds-at, down, coming, Awake, no_calls, at_work, marked, owed, Published, off, early, known_at,
  Invariant, acted-Published, acted-Awake,
}
use pg_grpc.Wake.Kept.{
  take_wake-worker_latch, at_pc, settled-Invariant, skipped-Awake, woken-Awake, published-Awake,
  checked-Awake, hung_up-Awake, configured-Awake, same-Published, down-Awake, running,
}

drained-injective : {N : Type 0} (a b : Db N) → drained a ≡ drained b → a ≡ b
drained-injective a b h = cc

module _ {N : Type 0} (rt : Runtime N) (keeps : KeepsIds rt) (size : 1 ≤ rt.batch_size) where
  round-distinct :
      (k : ℕ) (db db' : Db N) (r : Round N)
      → RoundOf rt k db r
      → Nodup (known db)
      → (r ≡ stored_batch db') ⊎ (r ≡ drained db')
      → Nodup (known db')
  round-distinct k db db' r (ended left b none_left calm) d (inl e) = cc
  round-distinct k db db' r (ended left b none_left calm) d (inr e) =
      subst (λ x. Nodup (known x)) (drained-injective _ db' e) (ended-known rt k db left b d)
  round-distinct k db db' r (stores db1 s) d (inl e) =
      let same : db1 ≡ db' = cc in
      subst (λ x. Nodup (known x)) same (Stores-known rt k db db1 keeps s d)
  round-distinct k db db' r (stores db1 s) d (inr e) = cc
  round-distinct k db db' r (breaks b) d (inl e) = cc
  round-distinct k db db' r (breaks b) d (inr e) = cc

  finished-nil :
      (k : ℕ) (db db' : Db N) (r : Round N)
      → RoundOf rt k db r
      → r ≡ drained db'
      → db'.call_queue ≡ []
  finished-nil k db db' r (ended left b none_left calm) e =
      ap (λ d. d.call_queue) (sym (drained-injective _ db' e))
      ∙ queue-cleanup rt k left
      ∙ no_rows rt left db b.split none_left
  finished-nil k db db' r (stores db1 s) e = cc
  finished-nil k db db' r (breaks b) e = cc

module _ {N : Type 0} (rt : Runtime N) (keeps : KeepsIds rt) where
  worker-Published : (s t : System N) → Published s → WorkerStep rt s t → Published t
  worker-Published s t p (starts e) = early refl
  worker-Published s t p (publishes e latch h) = known_at h
  worker-Published s t p (wakes e h) =
      running (at_pc _ _ _ e (λ x. cc)) (at_pc _ _ _ e (λ x. cc)) refl p
  worker-Published s t p (reloads e h) =
      running (at_pc _ _ _ e (λ x. cc)) (at_pc _ _ _ e (λ x. cc)) refl p
  worker-Published s t p (no_sighup e h) =
      running (at_pc _ _ _ e (λ x. cc)) (at_pc _ _ _ e (λ x. cc)) refl p
  worker-Published s t p (takes e h) =
      running (at_pc _ _ _ e (λ x. cc)) (at_pc _ _ _ e (λ x. cc)) (take_wake-worker_latch s.memory)
        p
  worker-Published s t p (skips e h) =
      running (at_pc _ _ _ e (λ x. cc)) (at_pc _ _ _ e (λ x. cc)) (take_wake-worker_latch s.memory)
        p
  worker-Published s t p (stores_batch e db' h) = same-Published refl refl p
  worker-Published s t p (finishes e db' h) =
      running (at_pc _ _ _ e (λ x. cc)) (at_pc _ _ _ e (λ x. cc)) refl p

  Step-Published : (s t : System N) → Published s → Step rt s t → Published t
  Step-Published s t p (works w) = worker-Published s t p w
  Step-Published s t p (commits rows d) = same-Published refl refl p
  Step-Published s t p (acts before a rest after e) = acted-Published s before a rest after e p
  Step-Published s t p (configures new) = same-Published refl refl p
  Step-Published s t p (hangs_up e) = same-Published refl refl p
  Step-Published s t p (exits e) = off refl
  Step-Published s t p (fails e) = off refl

  -- The round that the worker does next, on tables with distinct ids.
  next-RoundOf :
      (s : System N)
      → Nodup (known s.db)
      → RoundOf
          (configured rt s.settings)
          s.rounds
          s.db
          (round (configured rt s.settings) s.rounds s.db)
  next-RoundOf s d =
      round-RoundOf (configured rt s.settings) s.rounds s.db keeps s.settings.positive d

  next-distinct :
      (s : System N) (db' : Db N)
      → Nodup (known s.db)
      → (round (configured rt s.settings) s.rounds s.db ≡ stored_batch db')
        ⊎ (round (configured rt s.settings) s.rounds s.db ≡ drained db')
      → Nodup (known db')
  next-distinct s db' d e =
      round-distinct (configured rt s.settings) keeps s.settings.positive s.rounds s.db db' _
        (next-RoundOf s d) d e

  worker-distinct : (s t : System N) → Nodup (known s.db) → WorkerStep rt s t → Nodup (known t.db)
  worker-distinct s t d (starts e) = d
  worker-distinct s t d (publishes e latch h) = d
  worker-distinct s t d (wakes e h) = d
  worker-distinct s t d (reloads e h) = d
  worker-distinct s t d (no_sighup e h) = d
  worker-distinct s t d (takes e h) = d
  worker-distinct s t d (skips e h) = d
  worker-distinct s t d (stores_batch e db' h) = next-distinct s db' d (inl h)
  worker-distinct s t d (finishes e db' h) = next-distinct s db' d (inr h)

  Step-distinct : (s t : System N) → Nodup (known s.db) → Step rt s t → Nodup (known t.db)
  Step-distinct s t d (works w) = worker-distinct s t d w
  Step-distinct s t d (commits rows d') = d'
  Step-distinct s t d (acts before a rest after e) = d
  Step-distinct s t d (configures new) = d
  Step-distinct s t d (hangs_up e) = d
  Step-distinct s t d (exits e) = d
  Step-distinct s t d (fails e) = d

  worker-Awake : (s t : System N) → Invariant s → WorkerStep rt s t → Awake t
  worker-Awake s t i (starts e) =
      down-Awake s (clear_latch s.memory) starting s.config false (at_pc _ _ _ e (λ x. cc)) refl
        (λ c. coming refl) i.awake
  worker-Awake s t i (publishes e latch h) = published-Awake s latch e i.awake
  worker-Awake s t i (wakes e h) = woken-Awake s e i.awake
  worker-Awake s t i (reloads e h) = checked-Awake s s.config false e i.awake
  worker-Awake s t i (no_sighup e h) = checked-Awake s s.settings s.sighup e i.awake
  worker-Awake s t i (takes e h) = at_work refl
  worker-Awake s t i (skips e h) = skipped-Awake s e h i.awake
  worker-Awake s t i (stores_batch e db' h) = at_work e
  worker-Awake s t i (finishes e db' h) = no_calls (
      finished-nil (configured rt s.settings) keeps s.settings.positive s.rounds s.db db' _
        (next-RoundOf s i.distinct) h)

  Step-Awake : (s t : System N) → Invariant s → Step rt s t → Awake t
  unfolding wake_worker_on_commit
  Step-Awake s t i (works w) = worker-Awake s t i w
  Step-Awake s t i (commits rows d) = owed (Holds-at (mark_wake ∷ signal ∷ []) s.callbacks [])
  Step-Awake s t i (acts before a rest after e) =
      acted-Awake s before a rest after e i.published i.awake
  Step-Awake s t i (configures new) = configured-Awake s new i.awake
  Step-Awake s t i (hangs_up e) = hung_up-Awake s i.awake
  Step-Awake s t i (exits e) = marked refl (down refl)
  Step-Awake s t i (fails e) =
      down-Awake s s.memory stopped s.settings s.sighup (at_pc _ _ _ e (λ x. cc)) refl
        (λ c. down refl) i.awake

  pub Reach-Invariant : (s t : System N) → Invariant s → Reach rt s t → Invariant t
  Reach-Invariant s t i here = i
  Reach-Invariant s t i (next {t = u} r step) =
      let j = Reach-Invariant s u i r in
      record {
        distinct = Step-distinct u t j.distinct step;
        published = Step-Published u t j.published step;
        awake = Step-Awake u t j step;
      }

  -- From a stopped worker and an empty queue, every interleaving of commits, callbacks' steps, changes
  -- of the configuration, SIGHUPs and the worker's steps, its crashes and restarts among them, reaches only states in which the queue is
  -- empty, the worker is in its inner loop, the mark is set and the worker's latch is set or yet to be
  -- set or passed, or a callback has both its steps to take.
  pub no_lost_wake_up :
      (s t : System N)
      → s.pc ≡ stopped
      → s.db.call_queue ≡ []
      → Nodup (known s.db)
      → Reach rt s t
      → Awake t
  no_lost_wake_up s t e empty distinct r =
      (Reach-Invariant s t (settled-Invariant s e empty distinct) r).awake
