-- ===== src/Queue/Store.antt =====
-- `insert_results` and `ttl_cleanup` of src/queue.rs: the writes to `grpc._call_result`.
use mathlib.Core.List.{filter}
use Prim.Native.Nat.{max}
use native.Mathlib.Decide.{dec_le}
use pg_grpc.Common.{
  ℕ, String, Bool, ◌||◌, not, suc, length, Option, none, some, List, [], ◌∷◌, ◌++◌, if◌then◌else◌,
  ◌==◌, nat_eq, string_eq, contains,
}
use pg_grpc.Json.{Value}
use pg_grpc.Queue.{CallOutcome, CallResult, ResultRow, Db, result_ids}

-- The four arrays that `insert_results` binds.
pub record Columns (N : Type 0) : Type 0 where
  pub ids : List ℕ
  pub statuses : List String
  pub responses : List (Option (Value N))
  pub error_msgs : List (Option String)

-- A row of `SELECT * FROM UNNEST(…)`; an array that is too short gives NULL.
pub record Unnested (N : Type 0) : Type 0 where
  pub id : Option ℕ
  pub status : Option String
  pub response : Option (Value N)
  pub error_msg : Option String

module _ {N : Type 0} where
  -- One round of the loop over the results: a push on each array.
  unfoldable pub push_result : Columns N → CallResult N → Columns N
  push_result c r = elim r.outcome [
    | CallOutcome.success v ↦ record {
      ids = c.ids ++ r.id ∷ [];
      statuses = c.statuses ++ "SUCCESS" ∷ [];
      responses = c.responses ++ some v ∷ [];
      error_msgs = c.error_msgs ++ none ∷ [];
    }
    | CallOutcome.error msg ↦ record {
      ids = c.ids ++ r.id ∷ [];
      statuses = c.statuses ++ "ERROR" ∷ [];
      responses = c.responses ++ none ∷ [];
      error_msgs = c.error_msgs ++ some msg ∷ [];
    }
  ]

  unfoldable pub columns_from : Columns N → List (CallResult N) → Columns N
  columns_from c [] = c
  columns_from c (r ∷ rs) = columns_from (push_result c r) rs

-- What PostgreSQL takes for a row: a response as jsonb and a text, of which it refuses some, such as
-- those with the character U+0000.
abbrev pub Accepts : Type 0 → Type 0
Accepts N = Option (Value N) → Option String → Bool

-- How the DELETE of the clean-up goes: it takes the rows from before a time; or SPI returns an `Err`;
-- or PostgreSQL raises an ERROR, as it does for a text that is no interval.
pub data Cutoff : Type 0 where
  deletes : ℕ → Cutoff
  warns : Cutoff
  raises : Cutoff

-- An array that has ended gives NULL.
abbrev pub first : {A : Type 0} → List A → Option A
first [] = none
first (a ∷ l) = some a

abbrev pub first_nullable : {A : Type 0} → List (Option A) → Option A
first_nullable [] = none
first_nullable (a ∷ l) = a

abbrev pub rest : {A : Type 0} → List A → List A
rest [] = []
rest (a ∷ l) = l

module _ {N : Type 0} where
  abbrev pub row_of_heads : Columns N → Unnested N
  row_of_heads c = record {
    id = first c.ids;
    status = first c.statuses;
    response = first_nullable c.responses;
    error_msg = first_nullable c.error_msgs;
  }

  abbrev pub tails : Columns N → Columns N
  tails c = record {
    ids = rest c.ids;
    statuses = rest c.statuses;
    responses = rest c.responses;
    error_msgs = rest c.error_msgs;
  }

  -- `UNNEST`, for so many rows.
  unfoldable pub unnest : ℕ → Columns N → List (Unnested N)
  unnest ℕ.zero c = []
  unnest (suc n) c = row_of_heads c ∷ unnest n (tails c)

  -- The row count of UNNEST is the length of the longest array.
  abbrev pub row_count : Columns N → ℕ
  row_count c =
      max (max (length c.ids) (length c.statuses)) (max (length c.responses) (length c.error_msgs))

  -- The constraints of `grpc._call_result`: a primary key, and a status that is one of two texts; and
  -- what PostgreSQL makes of the response and the message.
  unfoldable pub insert_row :
      Accepts N → ℕ → List (ResultRow N) → Unnested N → Option (List (ResultRow N))
  insert_row accepts now rows u = elim u.id [
    | none ↦ none
    | some id ↦ elim u.status [
      | none ↦ none
      | some status ↦
          if contains (result_ids rows) id
            || not (status == "SUCCESS" || status == "ERROR")
            || not (accepts u.response u.error_msg)
          then none
          else some (
              rows
              ++ (record {
                id = id;
                status = status;
                response = u.response;
                error_msg = u.error_msg;
                created = now;
              })
                ∷ [])
    ]
  ]

  unfoldable pub insert_rows :
      Accepts N → ℕ → List (ResultRow N) → List (Unnested N) → Option (List (ResultRow N))
  insert_rows accepts now rows [] = some rows
  insert_rows accepts now rows (u ∷ us) = elim (insert_row accepts now rows u) [
    | none ↦ none
    | some next ↦ insert_rows accepts now next us
  ]

  abbrev pub no_columns : Columns N
  no_columns = record { ids = []; statuses = []; responses = []; error_msgs = [] }

  -- `insert_results` in a transaction that began at `now`; an error of the conversions or of
  -- the INSERT is `none`.
  unfoldable pub insert_results : Accepts N → ℕ → List (CallResult N) → Db N → Option (Db N)
  insert_results accepts now [] db = some db
  insert_results accepts now (r ∷ rs) db =
      let c = columns_from no_columns (r ∷ rs) in
      elim (insert_rows accepts now db.call_result (unnest (row_count c) c)) [
        | none ↦ none
        | some rows ↦ some (record db { call_result = rows })
      ]

  -- `ttl_cleanup`. PostgreSQL reads the interval and takes it from `now()`: that is the argument
  -- `cutoff`. On an `Err` of SPI the function only warns; an ERROR of the DELETE is `none`.
  unfoldable pub ttl_cleanup : (String → ℕ → Cutoff) → String → ℕ → Db N → Option (Db N)
  ttl_cleanup cutoff ttl now db = elim (cutoff ttl now) [
    | raises ↦ none
    | warns ↦ some db
    | deletes oldest ↦
        some (record db { call_result = filter (λ r. dec_le oldest r.created) db.call_result })
  ]
