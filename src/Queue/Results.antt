-- ===== src/Queue/Results.antt =====
-- `insert_results` and `lookup` of src/queue.rs: what is stored is what is found again.
use mathlib.Core.List.{
  append_assoc, append-nil, map-append, Nodup, Mem, mem-cons, mem-cons_self, not-mem-nil,
}
use mathlib.Core.Logic.Or
use pg_grpc.Common.Members.{not_contains_before}
use pg_grpc.Common.{
  ℕ, ◌≡◌, refl, sym, ap, ap₂, ◌∙◌, subst, String, Bool, true, false, Bool-cases, inl, inr, Option,
  none, some, List, [], ◌∷◌, ◌++◌, map, length, nat_eq, string_eq, contains, arith,
}
use pg_grpc.Json.{Value}
use pg_grpc.Queue.{CallOutcome, CallResult, ResultRow, Db, result_ids}
use pg_grpc.Queue.Store.{
  Columns, Unnested, push_result, columns_from, unnest, row_count, insert_row, insert_rows,
  no_columns, insert_results, Accepts,
}

Bool_set : (a b : Bool) → IsProp (a ≡ b)
Bool_set = hlevel

module _ {N : Type 0} where
  -- The row that a result is stored as.
  abbrev pub stored : ℕ → CallResult N → ResultRow N
  stored now r = elim r.outcome [
    | CallOutcome.success v ↦ record {
      id = r.id;
      status = "SUCCESS";
      response = some v;
      error_msg = none;
      created = now;
    }
    | CallOutcome.error msg ↦ record {
      id = r.id;
      status = "ERROR";
      response = none;
      error_msg = some msg;
      created = now;
    }
  ]

  abbrev status_of : CallOutcome N → String
  status_of (CallOutcome.success v) = "SUCCESS"
  status_of (CallOutcome.error msg) = "ERROR"

  abbrev response_of : CallOutcome N → Option (Value N)
  response_of (CallOutcome.success v) = some v
  response_of (CallOutcome.error msg) = none

  abbrev message_of : CallOutcome N → Option String
  message_of (CallOutcome.success v) = none
  message_of (CallOutcome.error msg) = some msg

  -- The columns of a list of results, all at once.
  abbrev columns_of : List (CallResult N) → Columns N
  columns_of rs = record {
    ids = map (λ r. r.id) rs;
    statuses = map (λ r. status_of r.outcome) rs;
    responses = map (λ r. response_of r.outcome) rs;
    error_msgs = map (λ r. message_of r.outcome) rs;
  }

  abbrev append_columns : Columns N → Columns N → Columns N
  append_columns c d = record {
    ids = c.ids ++ d.ids;
    statuses = c.statuses ++ d.statuses;
    responses = c.responses ++ d.responses;
    error_msgs = c.error_msgs ++ d.error_msgs;
  }

  push_result-columns :
      (c : Columns N) (id : ℕ) (o : CallOutcome N) (rs : List (CallResult N))
      → append_columns (push_result c (record { id = id; outcome = o })) (columns_of rs)
        ≡ append_columns c (columns_of (record { id = id; outcome = o } ∷ rs))
  unfolding push_result
  push_result-columns c id (CallOutcome.success v) rs = simp append_assoc
  push_result-columns c id (CallOutcome.error msg) rs = simp append_assoc

  columns_from-columns :
      (c : Columns N) (rs : List (CallResult N))
      → columns_from c rs ≡ append_columns c (columns_of rs)
  unfolding columns_from
  columns_from-columns c [] = simp append-nil
  columns_from-columns c (r ∷ rs) =
      columns_from-columns (push_result c r) rs ∙ push_result-columns c r.id r.outcome rs

  abbrev unnested : CallResult N → Unnested N
  unnested r = record {
    id = some r.id;
    status = some (status_of r.outcome);
    response = response_of r.outcome;
    error_msg = message_of r.outcome;
  }

  unnest-columns : (rs : List (CallResult N)) → unnest (length rs) (columns_of rs) ≡ map unnested rs
  unfolding unnest
  unnest-columns [] = refl
  unnest-columns (r ∷ rs) = ap (λ us. unnested r ∷ us) (unnest-columns rs)

  row_count-columns : (rs : List (CallResult N)) → row_count (columns_of rs) ≡ length rs
  row_count-columns [] = refl
  row_count-columns (r ∷ rs) = omega (arith, row_count-columns rs)

  pub stored-id :
      (now id : ℕ) (o : CallOutcome N) → (stored now (record { id = id; outcome = o })).id ≡ id
  stored-id now id (CallOutcome.success v) = refl
  stored-id now id (CallOutcome.error msg) = refl

  pub result_ids-stored :
      (now : ℕ) (rs : List (CallResult N)) → result_ids (map (stored now) rs) ≡ map (λ r. r.id) rs
  result_ids-stored now [] = refl
  result_ids-stored now (r ∷ rs) = ap₂ ◌∷◌ (stored-id now r.id r.outcome) (result_ids-stored now rs)

  -- The ids of the stored rows and of the results to store, in that order.
  abbrev pub all_ids : List (ResultRow N) → List (CallResult N) → List ℕ
  all_ids rows rs = result_ids rows ++ map (λ r. r.id) rs

  all_ids-step :
      (now : ℕ) (rows : List (ResultRow N)) (r : CallResult N) (rs : List (CallResult N))
      → all_ids (rows ++ stored now r ∷ []) rs ≡ all_ids rows (r ∷ rs)
  all_ids-step now rows r rs =
      ap (λ t. t ++ map (λ s. s.id) rs)
        (map-append (λ s. s.id) rows (stored now r ∷ [])
          ∙ ap (λ t. result_ids rows ++ t) (result_ids-stored now (r ∷ [])))
      ∙ append_assoc (result_ids rows) _ _

  -- PostgreSQL accepts the response or the message of a result.
  abbrev pub storable : Accepts N → CallResult N → Bool
  storable accepts r = accepts (response_of r.outcome) (message_of r.outcome)

  -- How an INSERT of results with new ids goes: all can be stored and are; or one cannot.
  pub data Inserted (accepts : Accepts N) {A : Type 0} (rs : List (CallResult N)) (whole : A)
      : Option A → Type 0 where
    all_stored :
        ((r : CallResult N) → Mem r rs → storable accepts r ≡ true)
        → Inserted accepts rs whole (some whole)
    one_refused :
        (r : CallResult N) → Mem r rs → storable accepts r ≡ false → Inserted accepts rs whole none

module _ {N : Type 0} (accepts : Accepts N) where
  Inserted-cons :
      {A : Type 0} (r : CallResult N) (rs : List (CallResult N)) (whole : A) (o : Option A)
      → storable accepts r ≡ true
      → Inserted accepts rs whole o
      → Inserted accepts (r ∷ rs) whole o
  Inserted-cons r rs whole o a (all_stored all) =
      all_stored
        λ x m. Or.elim (Bool_set _ _) (mem-cons.0 m) (λ e. ap (storable accepts) e ∙ a) (all x)
  Inserted-cons r rs whole o a (one_refused x m bad) = one_refused x (mem-cons.1 (Or.inr m)) bad

  insert_row-stored :
      (now : ℕ) (rows : List (ResultRow N)) (id : ℕ) (o : CallOutcome N)
      → contains (result_ids rows) id ≡ false
      → storable accepts (record { id = id; outcome = o }) ≡ true
      → insert_row accepts now rows (unnested (record { id = id; outcome = o }))
        ≡ some (rows ++ stored now (record { id = id; outcome = o }) ∷ [])
  unfolding insert_row
  insert_row-stored now rows id (CallOutcome.success v) h a = rw (h, a)
  insert_row-stored now rows id (CallOutcome.error msg) h a = rw (h, a)

  insert_row-refused :
      (now : ℕ) (rows : List (ResultRow N)) (id : ℕ) (o : CallOutcome N)
      → contains (result_ids rows) id ≡ false
      → storable accepts (record { id = id; outcome = o }) ≡ false
      → insert_row accepts now rows (unnested (record { id = id; outcome = o })) ≡ none
  unfolding insert_row
  insert_row-refused now rows id (CallOutcome.success v) h a = rw (h, a)
  insert_row-refused now rows id (CallOutcome.error msg) h a = rw (h, a)

  insert_rows-Inserted :
      (now : ℕ) (rows : List (ResultRow N)) (rs : List (CallResult N))
      → Nodup (all_ids rows rs)
      → Inserted accepts rs
          (rows ++ map (stored now) rs)
          (insert_rows accepts now rows (map unnested rs))
  unfolding insert_rows
  insert_rows-Inserted now rows [] h = rw append-nil (all_stored λ r m. absurd (not-mem-nil m))
  insert_rows-Inserted now rows (r ∷ rs) h =
      let free = not_contains_before (result_ids rows) _ r.id h in
      let later = subst Nodup (sym (all_ids-step now rows r rs)) h in
      let tail = insert_rows-Inserted now (rows ++ stored now r ∷ []) rs later in
      elim (Bool-cases (storable accepts r)) [
        | inl fine ↦
            rw (insert_row-stored now rows r.id r.outcome free fine, insert_rows)
              (Inserted-cons r rs _ _ fine (
                subst
                  (λ w.
                    Inserted accepts rs w
                      (insert_rows accepts now (rows ++ stored now r ∷ []) (map unnested rs)))
                  (append_assoc rows (stored now r ∷ []) (map (stored now) rs)) tail))
        | inr bad ↦
            rw (insert_row-refused now rows r.id r.outcome free bad, insert_rows)
              (one_refused r mem-cons_self bad)
      ]

  abbrev pub with_results : ℕ → List (CallResult N) → Db N → Db N
  with_results now rs db = record db { call_result = db.call_result ++ map (stored now) rs }

  Inserted-db :
      (now : ℕ) (db : Db N) (rs : List (CallResult N)) (o : Option (List (ResultRow N)))
      → Inserted accepts rs (db.call_result ++ map (stored now) rs) o
      → Inserted accepts rs
          (with_results now rs db)
          (elim o [ none ↦ none | some rows ↦ some (record db { call_result = rows }) ])
  Inserted-db now db rs o (all_stored all) = all_stored all
  Inserted-db now db rs o (one_refused r m bad) = one_refused r m bad

  pub insert_results-Inserted :
      (now : ℕ) (rs : List (CallResult N)) (db : Db N)
      → Nodup (all_ids db.call_result rs)
      → Inserted accepts rs (with_results now rs db) (insert_results accepts now rs db)
  unfolding insert_results
  insert_results-Inserted now [] db h = rw append-nil (all_stored λ r m. absurd (not-mem-nil m))
  insert_results-Inserted now (r ∷ rs) db h =
      rw
        (
          columns_from-columns no_columns (r ∷ rs),
          insert_results,
          row_count-columns (r ∷ rs),
          unnest-columns (r ∷ rs),
        )
        (Inserted-db now db (r ∷ rs) _ (insert_rows-Inserted now db.call_result (r ∷ rs) h))

  -- Results with new ids that PostgreSQL accepts are all stored, each as a row of its own behind the
  -- rows that are there, whatever the mixture of successes and errors; nothing else changes.
  pub insert_results-stored :
      (now : ℕ) (rs : List (CallResult N)) (db : Db N)
      → Nodup (all_ids db.call_result rs)
      → ((r : CallResult N) → Mem r rs → storable accepts r ≡ true)
      → insert_results accepts now rs db
        ≡ some (record db { call_result = db.call_result ++ map (stored now) rs })
  insert_results-stored now rs db h fine = go _ (insert_results-Inserted now rs db h)
    where
      go :
          (o : Option (Db N))
          → Inserted accepts rs (with_results now rs db) o
          → o ≡ some (with_results now rs db)
      go o (all_stored all) = refl
      go o (one_refused r m bad) = cc (fine r m, bad)
