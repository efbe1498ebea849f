-- ===== src/Queue.antt =====
-- src/queue.rs and the tables of src/async_schema.rs. A table is the list of its rows in the order
-- in which a scan meets them, and each function runs its SQL statement on the tables: `none` is an
-- SQL error, on which the caller's `unwrap` panics.
pub mod Sort
pub mod Dequeue
pub mod Store
pub mod Lookup
pub mod Results
pub mod Tests
use mathlib.Core.Logic.{ite}
use mathlib.Core.Logic.Dec
use mathlib.Core.List.{filter, dec_mem}
use pg_grpc.Common.{
  ℕ, ℤ, suc, ◌+◌, String, Bool, true, false, ◌||◌, not, Option, none, some, List, [], ◌∷◌, ◌++◌,
  map, take, length, if◌then◌else◌, ◌==◌, nat_eq, string_eq, ℕ_discrete, ltb, unwrap_or, contains,
}
use pg_grpc.Json.{Value, null}
use pg_grpc.Queue.Sort.{order_by}

pub record QueueRow (N : Type 0) : Type 0 where
  pub id : ℕ
  pub endpoint : String
  pub method : String
  pub request : Value N
  pub metadata : Option (Value N)
  pub options : Option (Value N)
  pub timeout_ms : ℤ

pub data CallOutcome (N : Type 0) : Type 0 where
  success : Value N → CallOutcome N
  error : String → CallOutcome N

pub record CallResult (N : Type 0) : Type 0 where
  pub id : ℕ
  pub outcome : CallOutcome N

pub data LookupStatus (N : Type 0) : Type 0 where
  pending : LookupStatus N
  success : Value N → LookupStatus N
  error : String → LookupStatus N

pub record LookupResult (N : Type 0) : Type 0 where
  pub id : ℕ
  pub status : LookupStatus N

-- A row of `grpc._call_result`.
pub record ResultRow (N : Type 0) : Type 0 where
  pub id : ℕ
  pub status : String
  pub response : Option (Value N)
  pub error_msg : Option String
  pub created : ℕ

-- The two tables, and the sequence behind `bigserial`.
pub record Db (N : Type 0) : Type 0 where
  pub next_id : ℕ
  pub call_queue : List (QueueRow N)
  pub call_result : List (ResultRow N)

module _ {N : Type 0} where
  abbrev pub queue_ids : List (QueueRow N) → List ℕ
  queue_ids = map λ r. r.id

  abbrev pub result_ids : List (ResultRow N) → List ℕ
  result_ids = map λ r. r.id

  -- `SELECT id FROM grpc.call_queue ORDER BY id LIMIT batch_size`.
  unfoldable pub picked : ℕ → List (QueueRow N) → List ℕ
  unfolding order_by
  picked batch_size rows = take batch_size (order_by (queue_ids rows))

  -- `DELETE … USING rows … RETURNING …`: the rows that the statement takes out, and the tables that
  -- it leaves.
  unfoldable pub dequeue : ℕ → Db N → List (QueueRow N) × Db N
  dequeue batch_size db =
      let ids = picked batch_size db.call_queue in
      (
        filter (λ r. dec_mem ℕ_discrete r.id ids) db.call_queue,
        record db {
          call_queue = filter (λ r. Dec.not (dec_mem ℕ_discrete r.id ids)) db.call_queue;
        },
      )

  -- `jsonb_to_value`.
  abbrev pub jsonb_to_value : Option (Value N) → Value N
  jsonb_to_value v = unwrap_or v null

  -- `grpc_call_async`: the INSERT into the queue, with the id that the sequence gives.
  unfoldable pub insert_call :
      String → String → Value N → Option (Value N) → Option (Value N) → ℤ → Db N → Db N × ℕ
  insert_call endpoint method request metadata options timeout_ms db = (
    record db {
      next_id = suc db.next_id;
      call_queue =
          db.call_queue
          ++ (record {
            id = db.next_id;
            endpoint = endpoint;
            method = method;
            request = request;
            metadata = metadata;
            options = options;
            timeout_ms = timeout_ms;
          })
            ∷ [];
    },
    db.next_id,
  )

  -- `lookup`: a stored result first, then the queue.
  unfoldable pub find_result : ℕ → List (ResultRow N) → Option (ResultRow N)
  find_result id [] = none
  find_result id (r ∷ rows) = if r.id == id then some r else find_result id rows

  unfoldable pub count_calls : ℕ → List (QueueRow N) → ℕ
  count_calls id [] = 0
  count_calls id (r ∷ rows) = (if r.id == id then 1 else 0) + count_calls id rows

  unfoldable pub lookup : ℕ → Db N → LookupResult N
  unfolding find_result count_calls
  lookup id db = elim (find_result id db.call_result) [
    | some row ↦ record {
      id = id;
      status =
          if row.status == "SUCCESS"
          then LookupStatus.success (jsonb_to_value row.response)
          else LookupStatus.error (unwrap_or row.error_msg "");
    }
    | none ↦ record {
      id = id;
      status =
          if ltb 0 (count_calls id db.call_queue)
          then pending
          else LookupStatus.error "not found — result may have expired";
    }
  ]
