-- ===== src/Queue/Lookup.antt =====
-- `lookup` of src/queue.rs against what `insert_results` stored and what waits in the queue.
use mathlib.Core.List.{append_assoc, map-append, Mem, Nodup, List, [], ◌∷◌, ◌++◌, map}
use pg_grpc.Common.{
  ℕ, ◌≡◌, ◌≢◌, ◌↔◌, refl, sym, ap, ◌∙◌, subst, inl, inr, true, false, none, some, ==_refl, ◌==◌,
  nat_eq, string_eq, Bool-cases, Option-cases, contains, arith, ltb,
}
use pg_grpc.Common.Members.{not_contains_before, mem_of_contains, contains_of_mem}
use pg_grpc.Queue.{
  QueueRow, CallOutcome, CallResult, LookupStatus, ResultRow, Db, pending, queue_ids, result_ids,
  find_result, count_calls, lookup,
}
use pg_grpc.Queue.Store.{Accepts, insert_results}
use pg_grpc.Queue.Results.{stored, storable, all_ids, result_ids-stored, insert_results-stored}

module _ {N : Type 0} where
  find_result-append :
      (id : ℕ) (rows rest : List (ResultRow N))
      → contains (result_ids rows) id ≡ false
      → find_result id (rows ++ rest) ≡ find_result id rest
  unfolding find_result contains
  find_result-append id [] rest h = refl
  find_result-append id (r ∷ rows) rest h = ground (arith, find_result-append id rows rest)

  find_result-none_iff :
      (id : ℕ) (rows : List (ResultRow N))
      → (find_result id rows ≡ none) ↔ (contains (result_ids rows) id ≡ false)
  unfolding find_result contains
  find_result-none_iff id [] = ground arith
  find_result-none_iff id (r ∷ rows) = ground (arith, find_result-none_iff id rows)

  count_calls-contains :
      (id : ℕ) (rows : List (QueueRow N))
      → ltb 0 (count_calls id rows) ≡ contains (queue_ids rows) id
  unfolding count_calls contains
  count_calls-contains id [] = refl
  count_calls-contains id (r ∷ rows) = ground (arith, count_calls-contains id rows)

  -- What a caller is told of an outcome.
  abbrev pub reported : CallOutcome N → LookupStatus N
  reported (CallOutcome.success v) = LookupStatus.success v
  reported (CallOutcome.error msg) = LookupStatus.error msg

  lookup-front :
      (now : ℕ) (db : Db N) (front : List (ResultRow N)) (id : ℕ) (o : CallOutcome N)
      (back : List (ResultRow N))
      → contains (result_ids front) id ≡ false
      → lookup id
          (record db { call_result = front ++ stored now (record { id = id; outcome = o }) ∷ back })
        ≡ record { id = id; status = reported o }
  unfolding lookup
  lookup-front now db front id (CallOutcome.success v) back h =
      rw (find_result-append id front _ h, lookup) (unfold find_result in rw (==_refl id))
  lookup-front now db front id (CallOutcome.error msg) back h =
      rw (find_result-append id front _ h, lookup) (unfold find_result in rw (==_refl id))

  -- Each result of a batch with new ids that PostgreSQL accepts is found under its id once the batch is stored: a success
  -- with the response, an error with its message.
  pub lookup-insert_results :
      (accepts : Accepts N) (now : ℕ) (before : List (CallResult N)) (r : CallResult N)
      (after : List (CallResult N)) (db : Db N)
      → Nodup (all_ids db.call_result (before ++ r ∷ after))
      → ((x : CallResult N) → Mem x (before ++ r ∷ after) → storable accepts x ≡ true)
      → (db' : Db N) × (insert_results accepts now (before ++ r ∷ after) db ≡ some db')
        × (lookup r.id db' ≡ record { id = r.id; status = reported r.outcome })
  lookup-insert_results accepts now before r after db h fine = (
    record db { call_result = db.call_result ++ map (stored now) (before ++ r ∷ after) },
    insert_results-stored accepts now (before ++ r ∷ after) db h fine,
    rw whole (lookup-front now db front r.id r.outcome (map (stored now) after) unused),
  )
    where
      front : List (ResultRow N)
      front = db.call_result ++ map (stored now) before

      whole :
          db.call_result ++ map (stored now) (before ++ r ∷ after)
          ≡ front ++ stored now r ∷ map (stored now) after
      whole =
          ap (λ t. db.call_result ++ t) (map-append (stored now) before (r ∷ after))
          ∙ sym (append_assoc db.call_result _ _)

      ids :
          all_ids db.call_result (before ++ r ∷ after)
          ≡ result_ids front ++ r.id ∷ map (λ s. s.id) after
      ids =
          ap (λ t. result_ids db.call_result ++ t) (map-append (λ s. s.id) before (r ∷ after))
          ∙ sym (append_assoc (result_ids db.call_result) _ _)
          ∙ ap (λ t. t ++ r.id ∷ map (λ s. s.id) after)
              (ap (λ t. result_ids db.call_result ++ t) (sym (result_ids-stored now before))
                ∙ sym (map-append (λ s. s.id) db.call_result (map (stored now) before)))

      unused : contains (result_ids front) r.id ≡ false
      unused = not_contains_before (result_ids front) _ r.id (subst Nodup ids h)

  lookup_found :
      (id : ℕ) (db : Db N) (row : ResultRow N)
      → find_result id db.call_result ≡ some row
      → (lookup id db).status ≢ pending
  unfolding lookup
  lookup_found id db row e = elim (Bool-cases (row.status == "SUCCESS")) [
    | inl fine ↦ rw (e, lookup, fine) (λ p. cc)
    | inr bad ↦ rw (e, lookup, bad) (λ p. cc)
  ]

  lookup_waiting :
      (id : ℕ) (db : Db N)
      → find_result id db.call_result ≡ none
      → ((lookup id db).status ≡ pending) ↔ (contains (queue_ids db.call_queue) id ≡ true)
  unfolding lookup
  lookup_waiting id db e = elim (Bool-cases (contains (queue_ids db.call_queue) id)) [
    | inl waits ↦
        rw (e, lookup, count_calls-contains id db.call_queue, waits) ((λ p. refl), (λ p. refl))
    | inr gone ↦ rw (e, lookup, count_calls-contains id db.call_queue, gone) ((λ p. cc), (λ p. cc))
  ]

  -- A call is reported as pending exactly while it has no result and waits in the queue.
  pub lookup-pending_iff :
      (id : ℕ) (db : Db N)
      → ((lookup id db).status ≡ pending)
        ↔ ((contains (result_ids db.call_result) id ≡ false) × Mem id (queue_ids db.call_queue))
  lookup-pending_iff id db = elim (Option-cases (find_result id db.call_result)) [
    | inl e ↦
        let (to, from) = lookup_waiting id db e in
        (
          λ p. ((find_result-none_iff id _).0 e, mem_of_contains _ id (to p)),
          λ h. from (contains_of_mem _ id h.1),
        )
    | inr (row, e) ↦
        (λ p. absurd (lookup_found id db row e p), λ h. cc ((find_result-none_iff id _).1 h.0))
  ]
