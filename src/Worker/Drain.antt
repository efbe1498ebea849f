-- ===== src/Worker/Drain.antt =====
-- The inner loop of src/worker.rs ends with the queue empty and every call answered.
use mathlib.Core.List.{Perm, Nodup, map-append, append_assoc, append-nil, List, [], ◌∷◌, ◌++◌, map}
use mathlib.Core.List.Perm
use pg_grpc.Common.{
  ℕ, suc, ◌≤◌, ◌<◌, ◌≡◌, refl, sym, ap, ap₂, ◌∙◌, subst, inl, inr, false, Bool-cases, arith, length,
  length-append,
}
use pg_grpc.Common.Perms.{length-perm}
use pg_grpc.Queue.{QueueRow, CallOutcome, CallResult, ResultRow, Db}
use pg_grpc.Queue.Results.{stored}
use pg_grpc.Worker.{Runtime, Round, round, idle, drain}
use pg_grpc.Worker.Batch.{due, KeepsIds}
use pg_grpc.Worker.Rounds.{known, cleanup, Stores, RoundOf, ended, stores, breaks, round-RoundOf}
use pg_grpc.Worker.Kept.{
  Storable, Storable-not-Breaks, Stores-Storable, ended-known, Stores-known, queue-cleanup, no_rows,
}

idle-injective : {N : Type 0} (a b : Db N) → idle a ≡ idle b → a ≡ b
idle-injective a b h = cc

module _ {N : Type 0} where
  -- A stored row without the time at which it was stored.
  abbrev pub undated : ResultRow N → ResultRow N
  undated r = record r { created = 0 }

  undated-stored :
      (now id : ℕ) (o : CallOutcome N)
      → undated (stored now (record { id = id; outcome = o }))
        ≡ stored 0 (record { id = id; outcome = o })
  undated-stored now id (CallOutcome.success v) = refl
  undated-stored now id (CallOutcome.error msg) = refl

  map-undated :
      (now : ℕ) (rs : List (CallResult N)) → map undated (map (stored now) rs) ≡ map (stored 0) rs
  map-undated now [] = refl
  map-undated now (r ∷ rs) = ap₂ ◌∷◌ (undated-stored now r.id r.outcome) (map-undated now rs)

module _ {N : Type 0} (rt : Runtime N) where
  -- The rows that the calls of a queue are to be answered by.
  abbrev pub answers : List (QueueRow N) → List (ResultRow N)
  answers rows = map (stored 0) (map (due rt) rows)

  -- The stored rows and the answers still due: what the loop moves about.
  abbrev ledger : Db N → List (ResultRow N)
  ledger db = map undated db.call_result ++ answers db.call_queue

  answers-perm : {xs ys : List (QueueRow N)} → Perm xs ys → Perm (answers xs) (answers ys)
  answers-perm p = Perm.map (stored 0) (Perm.map (due rt) p)

  answers-append : (xs ys : List (QueueRow N)) → answers (xs ++ ys) ≡ answers xs ++ answers ys
  answers-append xs ys = ap (map (stored 0)) (map-append (due rt) xs ys) ∙ map-append (stored 0) _ _

  -- Without its clean-up a round keeps the ledger.
  Stores-ledger :
      (k : ℕ) (db db' : Db N) (s : Stores rt k db db')
      → Perm (ledger db) (
          ledger (record s.left {
            call_result = s.left.call_result ++ map (stored (rt.now k)) s.results;
          }))
  Stores-ledger k db db' s =
      let waiting =
        subst (Perm (answers db.call_queue)) (answers-append s.rows s.left.call_queue)
          (answers-perm s.batch.split) in
      let given = Perm.map (stored 0) s.results_due in
      let moved =
        Perm.trans waiting (Perm.append_right (answers s.left.call_queue) (Perm.symm given)) in
      rw
        (
          map-append undated s.left.call_result (map (stored (rt.now k)) s.results),
          map-undated (rt.now k) s.results,
          append_assoc (map undated s.left.call_result) (map (stored 0) s.results)
              (answers s.left.call_queue),
          s.batch.results,
        )
        (Perm.append_left (map undated db.call_result) moved)

  pub Stores-shrinks :
      (k : ℕ) (db db' : Db N) → Stores rt k db db' → length db'.call_queue < length db.call_queue
  Stores-shrinks k db db' s = omega (
    arith,
    s.some_rows,
    length-perm s.batch.split,
    length-append s.rows s.left.call_queue,
    ap length (ap (λ d. d.call_queue) s.next ∙ queue-cleanup rt k _),
  )

  module _ (keeps : KeepsIds rt) (size : 1 ≤ rt.batch_size) where
    -- With no SIGTERM, distinct ids, and more rounds allowed than there are calls in the queue, the
    -- inner loop ends by finding the queue empty, with distinct ids again, if PostgreSQL accepts the
    -- results that the calls are due and no clean-up raises an ERROR.
    pub drain_total :
        (fuel k : ℕ) (db : Db N)
        → ((j : ℕ) → rt.sigterm_received j ≡ false)
        → Nodup (known db)
        → Storable rt db
        → length db.call_queue < fuel
        → (db' : Db N) × (drain rt fuel k db ≡ idle db') × (db'.call_queue ≡ []) × Nodup (known db')
    unfolding drain
    drain_total ℕ.zero k db quiet distinct fine h = absurd (omega arith)
    drain_total (suc fuel) k db quiet distinct fine h =
        go (round rt k db) refl (round-RoundOf rt k db keeps size distinct) (λ db' s.
          drain_total fuel (suc k) db' quiet (Stores-known rt k db db' keeps s distinct)
            (Stores-Storable rt k db db' s fine)
            (let less = Stores-shrinks k db db' s in omega arith))
      where
        go :
            (r : Round N)
            → round rt k db ≡ r
            → RoundOf rt k db r
            → ((db' : Db N)
                → Stores rt k db db'
                → (end : Db N) × (drain rt fuel (suc k) db' ≡ idle end)
                  × (end.call_queue ≡ [])
                  × Nodup (known end))
            → (db' : Db N) × (drain rt (suc fuel) k db ≡ idle db')
              × (db'.call_queue ≡ [])
              × Nodup (known db')
        go r e (ended left b no_call calm) rec = (
          cleanup rt k left,
          rw (quiet k, e, drain),
          queue-cleanup rt k left ∙ no_rows rt left db b.split no_call,
          ended-known rt k db left b distinct,
        )
        go r e (stores db' s) rec =
            let (end, run, empty, once) = rec db' s in
            (end, rw (quiet k, e, drain) run, empty, once)
        go r e (breaks b) rec = absurd (Storable-not-Breaks rt k db fine b)

    -- While the clean-up deletes nothing, the drained queue's calls are answered in full: the rows
    -- that the loop leaves are those that were stored and one for each call of the queue, with the
    -- result that it is due; only their times depend on the rounds.
    pub drain_answers :
        (fuel k : ℕ) (db db' : Db N)
        → ((j : ℕ) (d : Db N) → cleanup rt j d ≡ d)
        → Nodup (known db)
        → drain rt fuel k db ≡ idle db'
        → Perm (map undated db'.call_result) (map undated db.call_result ++ answers db.call_queue)
    unfolding drain
    drain_answers ℕ.zero k db db' kept distinct h = cc
    drain_answers (suc fuel) k db db' kept distinct h = elim (Bool-cases (rt.sigterm_received k)) [
      | inl stop ↦ let e = rw (stop, drain) at h in cc
      | inr on ↦
          go (round rt k db) refl (round-RoundOf rt k db keeps size distinct)
            (λ next s.
              drain_answers fuel (suc k) next db' kept (Stores-known rt k db next keeps s distinct))
            on
    ]
      where
        go :
            (r : Round N)
            → round rt k db ≡ r
            → RoundOf rt k db r
            → ((next : Db N)
                → Stores rt k db next
                → drain rt fuel (suc k) next ≡ idle db'
                → Perm
                    (map undated db'.call_result)
                    (map undated next.call_result ++ answers next.call_queue))
            → rt.sigterm_received k ≡ false
            → Perm
                (map undated db'.call_result)
                (map undated db.call_result ++ answers db.call_queue)
        go r e (ended left b no_call calm) rec on =
            let same = idle-injective _ db' (rw (on, e, drain) at h) in
            rw (← same, kept k left, b.results, no_call, append-nil) (Perm.refl _)
        go r e (stores next s) rec on =
            let after = rec next s (rw (on, e, drain) at h) in
            let same = s.next ∙ kept k _ in
            Perm.trans after (
              subst (λ d. Perm (ledger d) (ledger db)) (sym same)
                (Perm.symm (Stores-ledger k db next s)))
        go r e (breaks b) rec on = let h' = rw (on, e, drain) at h in cc
