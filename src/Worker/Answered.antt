-- ===== src/Worker/Answered.antt =====
-- After src/worker.rs has drained the queue, `lookup` of src/queue.rs finds the answer to each call
-- that was in it.
use mathlib.Core.List.{
  List, [], ◌∷◌, ◌++◌, map, Mem, Nodup, mem-append, mem-cons, not-mem-nil, Nodup-cons, map-append,
  mem-map_of_mem,
}
use mathlib.Core.List.Perm
use mathlib.Core.Logic.Or
use mathlib.Core.Option
use mathlib.Core.Option.{some-injective}
use mathlib.Core.HLevel.{hedberg}
use pg_grpc.Common.{
  ℕ, ◌≤◌, ◌≡◌, refl, sym, ap, ap₂, ◌∙◌, subst, inl, inr, String, Option, none, some, Bool-cases,
  ◌==◌, ==_refl, nat_eq, string_eq, ℕ_discrete,
}
use pg_grpc.Json.{Value}
use pg_grpc.Queue.{
  QueueRow, CallOutcome, CallResult, ResultRow, Db, result_ids, find_result, lookup,
}
use pg_grpc.Queue.Lookup.{reported}
use pg_grpc.Queue.Results.{stored, stored-id, result_ids-stored}
use pg_grpc.Worker.{Runtime, drain, idle}
use pg_grpc.Worker.Batch.{due, KeepsIds, map-due-ids, due-id}
use pg_grpc.Worker.Rounds.{known, cleanup}
use pg_grpc.Worker.Drain.{undated, answers, drain_answers}

String_discrete : Discrete String
String_discrete s t = elim (Bool-cases (s == t)) [
  | inl e ↦ yes ((string_eq.same_iff s t).0 e)
  | inr e ↦ no (λ p. cc (e, (string_eq.same_iff s t).1 p))
]

Value-discrete : {N : Type 0} → Discrete N → Discrete (Value N)
Value-discrete d = hlevel String_discrete

ResultRow-discrete : {N : Type 0} → Discrete N → Discrete (ResultRow N)
ResultRow-discrete d = hlevel (String_discrete, Value-discrete, ℕ_discrete)

Option_row-discrete : {N : Type 0} → Discrete N → Discrete (Option (ResultRow N))
Option_row-discrete d = hlevel (ResultRow-discrete)

module _ {N : Type 0} (numbers : Discrete N) where
  -- Among rows with distinct ids, each is found under its own.
  find_result_of_mem :
      (x : ResultRow N) (rows : List (ResultRow N))
      → Nodup (result_ids rows)
      → Mem x rows
      → find_result x.id rows ≡ some x
  unfolding find_result
  find_result_of_mem x [] d m = absurd (not-mem-nil m)
  find_result_of_mem x (y ∷ rows) d m =
      Or.elim (hedberg (Option_row-discrete numbers) _ _) (mem-cons.0 m)
        (λ same. rw (same, ==_refl y.id) refl)
        (λ later. elim (Bool-cases (y.id == x.id)) [
          | inl clash ↦ absurd (
              (Nodup-cons.0 d).0 (
                subst (λ i. Mem i (result_ids rows)) (sym ((nat_eq.same_iff y.id x.id).0 clash))
                  (mem-map_of_mem (λ r. r.id) later)))
          | inr other ↦ rw other (find_result_of_mem x rows (Nodup-cons.0 d).1 later)
        ])

  find_result-undated :
      (id : ℕ) (rows : List (ResultRow N))
      → find_result id (map undated rows) ≡ Option.map undated (find_result id rows)
  unfolding find_result
  find_result-undated id [] = refl
  find_result-undated id (r ∷ rows) = elim (Bool-cases (r.id == id)) [
    | inl same ↦ rw same refl
    | inr other ↦ rw other (find_result-undated id rows)
  ]

  result_ids-undated : (rows : List (ResultRow N)) → result_ids (map undated rows) ≡ result_ids rows
  result_ids-undated [] = refl
  result_ids-undated (r ∷ rows) = ap (λ l. r.id ∷ l) (result_ids-undated rows)

  -- The status that `lookup` gives does not depend on when a row was stored.
  lookup_of_found :
      (id : ℕ) (db : Db N) (row : ResultRow N) (i : ℕ) (o : CallOutcome N)
      → find_result id db.call_result ≡ some row
      → undated row ≡ stored 0 (record { id = i; outcome = o })
      → lookup id db ≡ record { id = id; status = reported o }
  unfolding lookup
  lookup_of_found id db row i (CallOutcome.success v) e h =
      let status : row.status ≡ "SUCCESS" = ap (λ r. r.status) h in
      let response : row.response ≡ some v = ap (λ r. r.response) h in
      rw (e, lookup, status, response) refl
  lookup_of_found id db row i (CallOutcome.error msg) e h =
      let status : row.status ≡ "ERROR" = ap (λ r. r.status) h in
      let message : row.error_msg ≡ some msg = ap (λ r. r.error_msg) h in
      rw (e, lookup, status, message) refl

  lookup-found :
      (id : ℕ) (db : Db N) (r : CallResult N)
      → find_result id (map undated db.call_result) ≡ some (stored 0 r)
      → lookup id db ≡ record { id = id; status = reported r.outcome }
  lookup-found id db r h = go (find_result id db.call_result) refl
    where
      go :
          (found : Option (ResultRow N))
          → find_result id db.call_result ≡ found
          → lookup id db ≡ record { id = id; status = reported r.outcome }
      go none e =
          let nothing = ap (Option.map undated) e in
          cc (nothing, find_result-undated id db.call_result, h)
      go (some row) e =
          let same : some (undated row) ≡ some (stored 0 r) =
            ap (Option.map undated) (sym e) ∙ sym (find_result-undated id db.call_result) ∙ h in
          lookup_of_found id db row r.id r.outcome e (some-injective _ _ same)

module _ {N : Type 0} (numbers : Discrete N) (rt : Runtime N) (keeps : KeepsIds rt) where
  -- The ids of the rows that the drained queue leaves.
  drained-ids :
      (db : Db N) → result_ids (map undated db.call_result ++ answers rt db.call_queue) ≡ known db
  drained-ids db =
      map-append (λ r. r.id) (map undated db.call_result) (answers rt db.call_queue)
      ∙ ap₂ ◌++◌ (result_ids-undated numbers db.call_result)
          (result_ids-stored 0 (map (due rt) db.call_queue) ∙ map-due-ids rt keeps db.call_queue)

  -- While the clean-up deletes nothing: once the inner loop has found the queue empty, `lookup` tells
  -- of each call that was in it the outcome that the call was due.
  pub lookup-drain :
      (fuel k : ℕ) (db db' : Db N) (row : QueueRow N)
      → 1 ≤ rt.batch_size
      → ((j : ℕ) (d : Db N) → cleanup rt j d ≡ d)
      → Nodup (known db)
      → Mem row db.call_queue
      → drain rt fuel k db ≡ idle db'
      → lookup row.id db' ≡ record { id = row.id; status = reported (due rt row).outcome }
  lookup-drain fuel k db db' row size kept distinct waits h =
      let all = drain_answers rt keeps size fuel k db db' kept distinct h in
      let ids = Perm.map (λ r. r.id) all in
      let answer = mem-map_of_mem (stored 0) (mem-map_of_mem (due rt) waits) in
      lookup-found numbers row.id db' (due rt row) (
        subst (λ i. find_result i (map undated db'.call_result) ≡ some (stored 0 (due rt row)))
          (stored-id 0 (due rt row).id (due rt row).outcome ∙ due-id rt keeps row)
          (find_result_of_mem numbers (stored 0 (due rt row)) (map undated db'.call_result)
            (Perm.nodup (Perm.symm ids) (subst Nodup (sym (drained-ids db)) distinct))
            ((Perm.mem_iff all).1 (mem-append.1 (Or.inr answer)))))
