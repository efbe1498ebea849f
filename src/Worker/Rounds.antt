-- ===== src/Worker/Rounds.antt =====
-- One round of the worker's inner loop: it moves calls from the queue to the results, or panics for
-- one of two causes.
use Prim.Native.Nat.{min}
use mathlib.Core.List.{
  Perm, Nodup, Mem, Nodup-append, map-append, append_assoc, List, [], ◌∷◌, ◌++◌, map,
}
use mathlib.Core.List.Perm
use pg_grpc.Common.{
  ℕ, ◌≤◌, ◌<◌, ◌≡◌, refl, subst, Option, none, some, arith, length, unwrap_or, ◌⊎◌, inl, inr, true,
  false, ◌≢◌,
}
use pg_grpc.Queue.{QueueRow, CallResult, Db, queue_ids, result_ids}
use pg_grpc.Queue.Store.{Cutoff, deletes, warns, raises, insert_results, ttl_cleanup}
use pg_grpc.Queue.Results.{
  stored, storable, Inserted, all_stored, one_refused, all_ids, insert_results-Inserted,
}
use pg_grpc.Queue.Dequeue.{IsBatch, dequeue-IsBatch}
use pg_grpc.Worker.{Runtime, run_batch, Round, drained, stored_batch, crashed, finish_round, round}
use pg_grpc.Worker.Batch.{due, KeepsIds, map-due-ids, run_batch-perm}

-- The ids of all calls that have a result or wait for one.
abbrev pub known : {N : Type 0} → Db N → List ℕ
known db = result_ids db.call_result ++ queue_ids db.call_queue

module _ {N : Type 0} (rt : Runtime N) where
  abbrev pub cleanup : ℕ → Db N → Db N
  cleanup k db = unwrap_or (ttl_cleanup rt.cutoff rt.ttl (rt.now k) db) db

  -- A round from one state to the next that stores a batch: the oldest calls, up to the batch size,
  -- leave the queue, each gets the result that it is due, and expired results go.
  pub record Stores (k : ℕ) (db db' : Db N) : Type 0 where
    pub rows : List (QueueRow N)
    pub left : Db N
    pub results : List (CallResult N)
    pub batch : IsBatch rt.batch_size db rows left
    pub some_rows : 0 < length rows
    pub results_due : Perm results (map (due rt) rows)
    pub accepted : (r : CallResult N) → Mem r results → storable rt.accepts r ≡ true
    pub calm : rt.cutoff rt.ttl (rt.now k) ≢ raises
    pub next :
        db'
        ≡ cleanup k
            (record left { call_result = left.call_result ++ map (stored (rt.now k)) results })

  -- Why a round panics: a result that a call of its batch is due is refused by PostgreSQL, or its
  -- clean-up raises an ERROR.
  pub data Breaks (k : ℕ) (db : Db N) : Type 0 where
    refused :
        (rows : List (QueueRow N)) (left : Db N)
        → IsBatch rt.batch_size db rows left
        → (r : CallResult N) → Mem r (map (due rt) rows)
        → storable rt.accepts r ≡ false
        → Breaks k db
    raised : rt.cutoff rt.ttl (rt.now k) ≡ raises → Breaks k db

  pub data RoundOf (k : ℕ) (db : Db N) : Round N → Type 0 where
    ended :
        (left : Db N)
        → IsBatch rt.batch_size db [] left
        → db.call_queue ≡ []
        → rt.cutoff rt.ttl (rt.now k) ≢ raises
        → RoundOf k db (drained (cleanup k left))
    stores : (db' : Db N) → Stores k db db' → RoundOf k db (stored_batch db')
    breaks : Breaks k db → RoundOf k db crashed

  queue-eq-nil :
      (q : List (QueueRow N)) → 0 ≡ min rt.batch_size (length q) → 1 ≤ rt.batch_size → q ≡ []
  queue-eq-nil [] h b = refl
  queue-eq-nil (r ∷ q) h b = absurd (omega arith)

  -- The known ids before a round are those with a result, those in its batch, and those left.
  pub known-split :
      (db left : Db N) (rows : List (QueueRow N)) (rs : List (CallResult N))
      → KeepsIds rt
      → IsBatch rt.batch_size db rows left
      → Perm rs (map (due rt) rows)
      → Perm (known db) (all_ids left.call_result rs ++ queue_ids left.call_queue)
  known-split db left rows rs keeps b p =
      let ids =
        subst (Perm (map (λ r. r.id) rs)) (map-due-ids rt keeps rows) (Perm.map (λ r. r.id) p) in
      let queue =
        subst (Perm (queue_ids db.call_queue)) (map-append (λ r. r.id) rows left.call_queue)
          (Perm.map (λ r. r.id) b.split) in
      let moved =
        Perm.trans queue (Perm.append_right (queue_ids left.call_queue) (Perm.symm ids)) in
      rw
        (
          b.results,
          append_assoc (result_ids db.call_result) (map (λ r. r.id) rs) (queue_ids left.call_queue),
        )
        (Perm.append_left (result_ids db.call_result) moved)

  ttl_cleanup-cases :
      (k : ℕ) (db : Db N)
      → ((rt.cutoff rt.ttl (rt.now k) ≡ raises)
          × (ttl_cleanup rt.cutoff rt.ttl (rt.now k) db ≡ none))
        ⊎ ((rt.cutoff rt.ttl (rt.now k) ≢ raises)
            × (ttl_cleanup rt.cutoff rt.ttl (rt.now k) db ≡ some (cleanup k db)))
  unfolding ttl_cleanup
  ttl_cleanup-cases k db = go (rt.cutoff rt.ttl (rt.now k)) refl
    where
      go :
          (o : Cutoff)
          → rt.cutoff rt.ttl (rt.now k) ≡ o
          → ((rt.cutoff rt.ttl (rt.now k) ≡ raises)
              × (ttl_cleanup rt.cutoff rt.ttl (rt.now k) db ≡ none))
            ⊎ ((rt.cutoff rt.ttl (rt.now k) ≢ raises)
                × (ttl_cleanup rt.cutoff rt.ttl (rt.now k) db ≡ some (cleanup k db)))
      go raises e = inl (e, rw (e, ttl_cleanup) refl)
      go warns e = inr (λ p. cc (e, p), rw (e, ttl_cleanup) refl)
      go (deletes oldest) e = inr (λ p. cc (e, p), rw (e, ttl_cleanup) refl)

  finish_round-RoundOf :
      (k : ℕ) (db left : Db N) (rows : List (QueueRow N))
      → KeepsIds rt
      → 1 ≤ rt.batch_size
      → Nodup (known db)
      → IsBatch rt.batch_size db rows left
      → RoundOf k db (finish_round rt k rows left)
  unfolding finish_round
  finish_round-RoundOf k db left [] keeps size distinct b = elim (ttl_cleanup-cases k left) [
    | inl (bad, e) ↦ rw (e, finish_round) (breaks (raised bad))
    | inr (calm, e) ↦
        rw (e, finish_round) (ended left b (queue-eq-nil db.call_queue b.size size) calm)
  ]
  finish_round-RoundOf k db left (row ∷ rows) keeps size distinct b =
      let p = run_batch-perm rt k (row ∷ rows) in
      let new =
        (Nodup-append.0 (Perm.nodup (known-split db left (row ∷ rows) _ keeps b p) distinct)).0 in
      go _ refl
        (insert_results-Inserted rt.accepts (rt.now k) (run_batch rt k (row ∷ rows)) left new)
    where
      go :
          (o : Option (Db N))
          → insert_results rt.accepts (rt.now k) (run_batch rt k (row ∷ rows)) left ≡ o
          → Inserted rt.accepts
              (run_batch rt k (row ∷ rows))
              (record left {
                call_result =
                    left.call_result ++ map (stored (rt.now k)) (run_batch rt k (row ∷ rows));
              })
              o
          → RoundOf k db (finish_round rt k (row ∷ rows) left)
      go o e (one_refused r m bad) =
          rw (finish_round, e)
            (breaks (
              refused (row ∷ rows) left b r ((Perm.mem_iff (run_batch-perm rt k (row ∷ rows))).0 m)
                bad))
      go o e (all_stored all) =
          elim (ttl_cleanup-cases k (record left {
            call_result = left.call_result ++ map (stored (rt.now k)) (run_batch rt k (row ∷ rows));
          })) [
            | inl (bad, c) ↦ rw (finish_round, e, c) (breaks (raised bad))
            | inr (calm, c) ↦
                rw (finish_round, e, c)
                  (stores _ (record {
                    rows = row ∷ rows;
                    left = left;
                    results = run_batch rt k (row ∷ rows);
                    batch = b;
                    some_rows = omega arith;
                    results_due = run_batch-perm rt k (row ∷ rows);
                    accepted = all;
                    calm = calm;
                    next = refl;
                  }))
          ]

  -- A round of the inner loop on tables with distinct ids ends the loop if the queue is empty, and
  -- otherwise stores a result for each of the oldest calls, up to the batch size; or it panics. It
  -- panics exactly if PostgreSQL refuses one of those results or raises an ERROR in the clean-up.
  pub round-RoundOf :
      (k : ℕ) (db : Db N)
      → KeepsIds rt
      → 1 ≤ rt.batch_size
      → Nodup (known db)
      → RoundOf k db (round rt k db)
  unfolding round
  round-RoundOf k db keeps size distinct =
      finish_round-RoundOf k db _ _ keeps size distinct
        (dequeue-IsBatch rt.batch_size db (Nodup-append.0 distinct).1)
