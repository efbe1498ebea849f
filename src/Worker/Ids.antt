-- ===== src/Worker/Ids.antt =====
-- The ids of the tables, as rounds of the inner loop of src/worker.rs leave them.
use mathlib.Core.List.{Nodup, Mem, []}
use mathlib.Core.List.Perm
use mathlib.Core.List.Sublist
use pg_grpc.Common.{ℕ, ◌≤◌, ◌<◌, ◌≡◌, ◌⊎◌, inl, inr, ap, ◌∙◌, subst, arith}
use pg_grpc.Queue.{Db}
use pg_grpc.Queue.Dequeue.{IsBatch}
use pg_grpc.Queue.Store.{ttl_cleanup}
use pg_grpc.Worker.{Runtime, Round, drained, stored_batch, round}
use pg_grpc.Worker.Batch.{KeepsIds}
use pg_grpc.Worker.Rounds.{known, cleanup, Stores, RoundOf, ended, stores, breaks, round-RoundOf}
use pg_grpc.Worker.Kept.{Stores-known, ended-known, known-cleanup, known-stored, known-ended}

-- Every id is known once, and the sequence is past all of them.
pub record WellKept {N : Type 0} (db : Db N) : Type 0 where
  pub distinct : Nodup (known db)
  pub given_out : (i : ℕ) → Mem i (known db) → i < db.next_id

module _ {N : Type 0} (rt : Runtime N) where
  next_id-cleanup : (k : ℕ) (db : Db N) → (cleanup rt k db).next_id ≡ db.next_id
  unfolding ttl_cleanup
  next_id-cleanup k db = ground arith

  -- A round ends with these tables.
  abbrev pub Leaves : Round N → Db N → Type 0
  Leaves r db' = (r ≡ stored_batch db') ⊎ (r ≡ drained db')

  module _ (keeps : KeepsIds rt) (size : 1 ≤ rt.batch_size) where
    Stores-WellKept : (k : ℕ) (db db' : Db N) → Stores rt k db db' → WellKept db → WellKept db'
    Stores-WellKept k db db' s w = record {
      distinct = Stores-known rt k db db' keeps s w.distinct;
      given_out = λ i m.
          let whole =
            Sublist.subset (known-cleanup rt k _) i (subst (λ d. Mem i (known d)) s.next m) in
          let old = (Perm.mem_iff (known-stored rt k db db' s keeps)).1 whole in
          let less = w.given_out i old in
          let same = ap (λ d. d.next_id) s.next ∙ next_id-cleanup k _ ∙ s.batch.sequence in
          omega arith;
    }

    ended-WellKept :
        (k : ℕ) (db left : Db N)
        → IsBatch rt.batch_size db [] left
        → WellKept db
        → WellKept (cleanup rt k left)
    ended-WellKept k db left b w = record {
      distinct = ended-known rt k db left b w.distinct;
      given_out = λ i m.
          let whole = Sublist.subset (known-cleanup rt k left) i m in
          let less = w.given_out i ((Perm.mem_iff (known-ended rt db left b)).1 whole) in
          let same = next_id-cleanup k left ∙ b.sequence in omega arith;
    }

    Leaves-WellKept :
        (k : ℕ) (db db' : Db N) (r : Round N)
        → RoundOf rt k db r
        → WellKept db
        → Leaves r db'
        → WellKept db'
    Leaves-WellKept k db db' r (ended left b no_call calm) w (inl e) = cc
    Leaves-WellKept k db db' r (ended left b no_call calm) w (inr e) =
        let same : cleanup rt k left ≡ db' = cc in
        subst WellKept same (ended-WellKept k db left b w)
    Leaves-WellKept k db db' r (stores next s) w (inl e) =
        let same : next ≡ db' = cc in subst WellKept same (Stores-WellKept k db next s w)
    Leaves-WellKept k db db' r (stores next s) w (inr e) = cc
    Leaves-WellKept k db db' r (breaks b) w (inl e) = cc
    Leaves-WellKept k db db' r (breaks b) w (inr e) = cc

    -- A round keeps the tables well kept: it repeats no id, and knows none that the sequence has not
    -- given out.
    pub round-WellKept :
        (k : ℕ) (db db' : Db N) → WellKept db → Leaves (round rt k db) db' → WellKept db'
    round-WellKept k db db' w l =
        Leaves-WellKept k db db' (round rt k db) (round-RoundOf rt k db keeps size w.distinct) w l
