-- ===== src/Worker/Kept.antt =====
-- What a round of src/worker.rs keeps: distinct ids, and results that PostgreSQL accepts.
use mathlib.Core.List.{Perm, Nodup, Mem, mem-append, Sublist, map-append, List, [], ◌++◌, map}
use mathlib.Core.List.Perm
use mathlib.Core.Logic.Or
use mathlib.Core.List.Sublist
use mathlib.Core.List.Nodup
use native.Mathlib.Decide.{dec_le}
use pg_grpc.Common.{ℕ, ◌≡◌, refl, sym, subst, arith, ap, ◌∙◌, true, ◌≢◌}
use pg_grpc.Common.Perms.{map-filter-sublist}
use pg_grpc.Queue.{QueueRow, CallResult, Db, result_ids}
use pg_grpc.Queue.Store.{Cutoff, deletes, warns, raises, ttl_cleanup}
use pg_grpc.Queue.Results.{stored, storable, result_ids-stored}
use pg_grpc.Queue.Dequeue.{IsBatch}
use pg_grpc.Worker.{Runtime}
use pg_grpc.Worker.Batch.{due, KeepsIds}
use pg_grpc.Worker.Rounds.{known, cleanup, Stores, Breaks, refused, raised, known-split}

module _ {N : Type 0} (rt : Runtime N) where
  pub known-cleanup : (k : ℕ) (db : Db N) → Sublist (known (cleanup rt k db)) (known db)
  unfolding ttl_cleanup
  known-cleanup k db = go (rt.cutoff rt.ttl (rt.now k)) refl
    where
      go :
          (o : Cutoff)
          → rt.cutoff rt.ttl (rt.now k) ≡ o
          → Sublist (known (cleanup rt k db)) (known db)
      go warns e = rw (e, ttl_cleanup) (Sublist.refl _)
      go raises e = rw (e, ttl_cleanup) (Sublist.refl _)
      go (deletes oldest) e =
          rw (e, ttl_cleanup)
            (Sublist.append
              (map-filter-sublist (λ r. dec_le oldest r.created) (λ r. r.id) db.call_result)
              (Sublist.refl _))

  pub queue-cleanup : (k : ℕ) (db : Db N) → (cleanup rt k db).call_queue ≡ db.call_queue
  unfolding ttl_cleanup
  queue-cleanup k db = ground arith

  pub no_rows :
      (left db : Db N)
      → Perm db.call_queue left.call_queue
      → db.call_queue ≡ []
      → left.call_queue ≡ []
  no_rows left db p e = sym (Perm.nil-eq (subst (λ q. Perm q left.call_queue) e p))

  -- A batch without rows leaves the ids as they were.
  pub known-ended :
      (db left : Db N) → IsBatch rt.batch_size db [] left → Perm (known db) (known left)
  known-ended db left b =
      let same = Perm.append_left (result_ids db.call_result) (Perm.map (λ r. r.id) b.split) in
      rw (b.results) same

  pub ended-known :
      (k : ℕ) (db left : Db N)
      → IsBatch rt.batch_size db [] left
      → Nodup (known db)
      → Nodup (known (cleanup rt k left))
  ended-known k db left b distinct =
      Nodup.sublist (known-cleanup k left) (Perm.nodup (known-ended db left b) distinct)

  -- Before the clean-up a round knows the calls that were known, each once.
  pub known-stored :
      (k : ℕ) (db db' : Db N) (s : Stores rt k db db')
      → KeepsIds rt
      → Perm (known db) (
          known (record s.left {
            call_result = s.left.call_result ++ map (stored (rt.now k)) s.results;
          }))
  known-stored k db db' s keeps =
      rw
        (
          map-append (λ r. r.id) s.left.call_result (map (stored (rt.now k)) s.results),
          result_ids-stored (rt.now k) s.results,
        )
        (known-split rt db s.left s.rows s.results keeps s.batch s.results_due)

  pub Stores-known :
      (k : ℕ) (db db' : Db N)
      → KeepsIds rt
      → Stores rt k db db'
      → Nodup (known db)
      → Nodup (known db')
  Stores-known k db db' keeps s distinct =
      rw s.next
        (Nodup.sublist (known-cleanup k _) (Perm.nodup (known-stored k db db' s keeps) distinct))

  -- PostgreSQL accepts the results that the calls of a queue are due, and no clean-up raises an
  -- ERROR.
  pub record Storable (db : Db N) : Type 0 where
    pub accepted :
        (r : CallResult N) → Mem r (map (due rt) db.call_queue) → storable rt.accepts r ≡ true
    pub no_raise : (j : ℕ) → rt.cutoff rt.ttl (rt.now j) ≢ raises

  due-split :
      (db left : Db N) (rows : List (QueueRow N))
      → IsBatch rt.batch_size db rows left
      → Perm (map (due rt) db.call_queue) (map (due rt) rows ++ map (due rt) left.call_queue)
  due-split db left rows b =
      subst (Perm (map (due rt) db.call_queue)) (map-append (due rt) rows left.call_queue)
        (Perm.map (due rt) b.split)

  pub Storable-not-Breaks : (k : ℕ) (db : Db N) → Storable db → ¬ Breaks rt k db
  Storable-not-Breaks k db s (refused rows left b r m bad) =
      let there = (Perm.mem_iff (due-split db left rows b)).1 (mem-append.1 (Or.inl m)) in
      cc (s.accepted r there, bad)
  Storable-not-Breaks k db s (raised e) = s.no_raise k e

  pub Stores-Storable : (k : ℕ) (db db' : Db N) → Stores rt k db db' → Storable db → Storable db'
  Stores-Storable k db db' s fine = record {
    accepted = λ r m.
        let kept =
          subst (λ q. Mem r (map (due rt) q)) (ap (λ d. d.call_queue) s.next ∙ queue-cleanup k _)
            m in
        fine.accepted r
          ((Perm.mem_iff (due-split db s.left s.rows s.batch)).1 (mem-append.1 (Or.inr kept)));
    no_raise = fine.no_raise;
  }
