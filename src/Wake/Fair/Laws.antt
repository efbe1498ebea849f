-- ===== src/Wake/Fair/Laws.antt =====
-- No call starves in the queue of src/worker.rs, whatever calls arrive between its rounds.
use mathlib.Core.List.{
  List, [], ◌∷◌, ◌++◌, map, map-append, Mem, Nodup, mem-append, Mem-prop, exists_of_mem-map,
}
use mathlib.Core.List.Perm
use mathlib.Core.Logic.{∥∥₁_elim}
use mathlib.Core.Logic.Or
use native.Mathlib.Nat.{suc-mul}
use pg_grpc.Common.{
  ℕ, suc, ◌+◌, ◌*◌, ◌≤◌, ◌<◌, ◌≡◌, ◌≢◌, ◌⊎◌, sym, ap, ◌∙◌, subst, inl, inr, true, Bool-cases, arith,
  length, length-append, contains, nat_eq,
}
use native.Mathlib.Bridge.{le_prop}
use pg_grpc.Common.Perms.{length-perm}
use pg_grpc.Common.Members.{contains_of_mem, mem_of_contains}
use pg_grpc.Queue.{QueueRow, Db, queue_ids, result_ids, lookup, pending}
use pg_grpc.Queue.Dequeue.{IsBatch}
use pg_grpc.Queue.Lookup.{lookup-pending_iff}
use pg_grpc.Worker.{Runtime, Round}
use pg_grpc.Worker.Batch.{KeepsIds}
use pg_grpc.Worker.Ids.{Leaves}
use pg_grpc.Queue.Results.{stored}
use pg_grpc.Wake.System.{with_calls}
use pg_grpc.Worker.Rounds.{known, cleanup, Stores, RoundOf, ended, stores, breaks, round-RoundOf}
use pg_grpc.Worker.Kept.{Stores-known, ended-known, known-stored}
use pg_grpc.Wake.Fair.{ahead, Run, starts, commits, stores_batch, finishes}
use pg_grpc.Wake.Fair.Ahead.{ahead-append, ahead-perm, ahead-older, ahead-waits}

module _ {N : Type 0} (rt : Runtime N) (i : ℕ) where
  abbrev Waits : Db N → Type 0
  Waits db = contains (queue_ids db.call_queue) i ≡ true

  abbrev pub Answered : Db N → Type 0
  Answered db = contains (result_ids db.call_result) i ≡ true

  known_cases : (db : Db N) → Mem i (known db) → Answered db ⊎ Waits db
  known_cases db m = elim (Bool-cases (contains (result_ids db.call_result) i)) [
    | inl there ↦ inl there
    | inr missing ↦ inr (
        contains_of_mem _ i (
          Or.elim Mem-prop (mem-append.0 m)
            (λ r.
              let there : Answered db = contains_of_mem (result_ids db.call_result) i r in
              cc (missing, there))
            (λ q. q)))
  ]

  waits-length : (q : List (QueueRow N)) → contains (queue_ids q) i ≡ true → 1 ≤ length q
  unfolding contains
  waits-length [] h = cc
  waits-length (r ∷ q) h = omega arith

  -- A call that is left by a batch has the whole batch before it.
  left_behind :
      (db left : Db N) (rows : List (QueueRow N))
      → IsBatch rt.batch_size db rows left
      → Waits left
      → ahead i left.call_queue + rt.batch_size ≤ ahead i db.call_queue
  left_behind db left rows b w =
      let older : (r : QueueRow N) → Mem r rows → r.id < i = λ r m.
        ∥∥₁_elim (exists_of_mem-map (mem_of_contains (queue_ids left.call_queue) i w)) le_prop
          (λ found. subst (λ j. r.id < j) found.2 (b.oldest r found.0 m found.1)) in
      let all = ahead-older i rows older in
      let split = ahead-perm i b.split ∙ ahead-append i rows left.call_queue in
      let lengths = length-perm b.split ∙ length-append rows left.call_queue in
      let some_left = waits-length left.call_queue w in let size = b.size in omega arith

  -- What is known of the call after so many rounds.
  abbrev Stands : Db N → ℕ → ℕ → Db N → Type 0
  Stands db rounds passing now =
      (Waits now
        × (ahead i now.call_queue + rounds * rt.batch_size ≤ ahead i db.call_queue + passing))
      ⊎ Answered now

  contains-left : (xs ys : List ℕ) → contains xs i ≡ true → contains (xs ++ ys) i ≡ true
  contains-left xs ys h = contains_of_mem _ i (mem-append.1 (Or.inl (mem_of_contains xs i h)))

  Waits-with_calls : (rows : List (QueueRow N)) (db : Db N) → Waits db → Waits (with_calls rows db)
  Waits-with_calls rows db w =
      subst (λ l. contains l i ≡ true) (sym (map-append (λ r. r.id) db.call_queue rows))
        (contains-left (queue_ids db.call_queue) (queue_ids rows) w)

  module _ (keeps : KeepsIds rt) (size : 1 ≤ rt.batch_size) where
    Leaves-distinct :
        (k : ℕ) (now after : Db N) (r : Round N)
        → RoundOf rt k now r
        → Nodup (known now)
        → Leaves rt r after
        → Nodup (known after)
    Leaves-distinct k now after r (ended left b no_call calm) d (inl e) = cc
    Leaves-distinct k now after r (ended left b no_call calm) d (inr e) =
        let same : cleanup rt k left ≡ after = cc in
        subst (λ x. Nodup (known x)) same (ended-known rt k now left b d)
    Leaves-distinct k now after r (stores next s) d (inl e) =
        let same : next ≡ after = cc in
        subst (λ x. Nodup (known x)) same (Stores-known rt k now next keeps s d)
    Leaves-distinct k now after r (stores next s) d (inr e) = cc
    Leaves-distinct k now after r (breaks b) d (inl e) = cc
    Leaves-distinct k now after r (breaks b) d (inr e) = cc

    Run-distinct :
        {db : Db N} {rounds passing : ℕ} {now : Db N}
        → Nodup (known db)
        → Run rt i db rounds passing now
        → Nodup (known now)
    Run-distinct d starts = d
    Run-distinct d (commits rows run new) = new
    Run-distinct d (stores_batch {now = now} k after run e) =
        let before = Run-distinct d run in
        Leaves-distinct k now after _ (round-RoundOf rt k now keeps size before) before (inl e)
    Run-distinct d (finishes {now = now} k after run e) =
        let before = Run-distinct d run in
        Leaves-distinct k now after _ (round-RoundOf rt k now keeps size before) before (inr e)

    module _ (kept : (j : ℕ) (d : Db N) → cleanup rt j d ≡ d) where
      Stores-Stands :
          (db : Db N) (rounds passing k : ℕ) (now after : Db N)
          → Stores rt k now after
          → Stands db rounds passing now
          → Stands db (suc rounds) passing after
      Stores-Stands db rounds passing k now after s st =
          subst (Stands db (suc rounds) passing) (sym (s.next ∙ kept k _)) (go st)
        where
          mid : Db N
          mid = record s.left {
            call_result = s.left.call_result ++ map (stored (rt.now k)) s.results;
          }

          go : Stands db rounds passing now → Stands db (suc rounds) passing mid
          go (inr a) = inr (
              subst (λ l. contains l i ≡ true)
                (ap (λ l. result_ids l ++ result_ids (map (stored (rt.now k)) s.results))
                    (sym s.batch.results)
                  ∙ sym (
                      map-append (λ r. r.id) s.left.call_result
                        (map (stored (rt.now k)) s.results)))
                (contains-left (result_ids now.call_result) _ a))
          go (inl (w, le)) = elim (known_cases mid (still_known w)) [
            | inl a ↦ inr a
            | inr w' ↦
                let l = left_behind now s.left s.rows s.batch w' in
                let more = suc-mul rounds rt.batch_size in inl (w', omega arith)
          ]
            where
              still_known : Waits now → Mem i (known mid)
              still_known w =
                  (Perm.mem_iff (known-stored rt k now after s keeps)).0
                    (mem-append.1 (Or.inr (mem_of_contains (queue_ids now.call_queue) i w)))

      ended-Stands :
          (db : Db N) (rounds passing k : ℕ) (now left : Db N)
          → IsBatch rt.batch_size now [] left
          → now.call_queue ≡ []
          → Stands db rounds passing now
          → Stands db (suc rounds) passing (cleanup rt k left)
      unfolding contains
      ended-Stands db rounds passing k now left b no_call (inl (w, le)) =
          let nobody : contains (queue_ids {N = N} []) i ≡ true =
            subst (λ q. contains (queue_ids q) i ≡ true) no_call w in
          cc
      ended-Stands db rounds passing k now left b no_call (inr a) =
          subst (Stands db (suc rounds) passing) (sym (kept k left))
            (inr (subst (λ l. contains (result_ids l) i ≡ true) (sym b.results) a))

      round-Stands :
          (db : Db N) (rounds passing k : ℕ) (now after : Db N) (r : Round N)
          → RoundOf rt k now r
          → Leaves rt r after
          → Stands db rounds passing now
          → Stands db (suc rounds) passing after
      round-Stands db rounds passing k now after r (ended left b no_call calm) (inl e) st = cc
      round-Stands db rounds passing k now after r (ended left b no_call calm) (inr e) st =
          let same : cleanup rt k left ≡ after = cc in
          subst (Stands db (suc rounds) passing) same
            (ended-Stands db rounds passing k now left b no_call st)
      round-Stands db rounds passing k now after r (stores next s) (inl e) st =
          let same : next ≡ after = cc in
          subst (Stands db (suc rounds) passing) same
            (Stores-Stands db rounds passing k now next s st)
      round-Stands db rounds passing k now after r (stores next s) (inr e) st = cc
      round-Stands db rounds passing k now after r (breaks b) (inl e) st = cc
      round-Stands db rounds passing k now after r (breaks b) (inr e) st = cc

      Run-Stands :
          {db : Db N} {rounds passing : ℕ} {now : Db N}
          → Nodup (known db)
          → Waits db
          → Run rt i db rounds passing now
          → Stands db rounds passing now
      Run-Stands {db} d w starts = inl (w, omega arith)
      Run-Stands {db} d w (commits {rounds} {passing} {now} rows run new) =
          elim (Run-Stands d w run) [
            | inl (w', le) ↦
                let more = ahead-append i now.call_queue rows in
                inl (Waits-with_calls rows now w', omega arith)
            | inr a ↦ inr a
          ]
      Run-Stands {db} d w (stores_batch {rounds} {passing} {now} k after run e) =
          round-Stands db rounds passing k now after _
            (round-RoundOf rt k now keeps size (Run-distinct d run)) (inl e) (Run-Stands d w run)
      Run-Stands {db} d w (finishes {rounds} {passing} {now} k after run e) =
          round-Stands db rounds passing k now after _
            (round-RoundOf rt k now keeps size (Run-distinct d run)) (inr e) (Run-Stands d w run)

      -- While the clean-up deletes nothing: a call that waits in the queue is answered after so many
      -- rounds of the worker that their batches have room for the calls that are not younger than it,
      -- those that sessions commit in the meantime included. Younger calls do not delay it, however
      -- many arrive.
      pub no_starvation :
          {db : Db N} {rounds passing : ℕ} {now : Db N}
          → Nodup (known db)
          → Mem i (queue_ids db.call_queue)
          → Run rt i db rounds passing now
          → ahead i db.call_queue + passing ≤ rounds * rt.batch_size
          → Mem i (result_ids now.call_result) × ((lookup i now).status ≢ pending)
      no_starvation {db} {rounds} {passing} {now} d m run enough =
          elim (Run-Stands d (contains_of_mem (queue_ids db.call_queue) i m) run) [
            | inl (w, le) ↦ let self = ahead-waits i now.call_queue w in absurd (omega arith)
            | inr a ↦ (
              mem_of_contains (result_ids now.call_result) i a,
              λ p. (let missing = ((lookup-pending_iff i now).0 p).0 in cc (missing, a)),
            )
          ]
