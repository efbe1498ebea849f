-- ===== src/Extension/Fetch.antt =====
-- `grpc_call_result` of src/lib.rs: a look at the answer to a call, or a wait for it.
pub mod Laws
mod Tests
use pg_grpc.Common.{ℕ, suc, String, Bool, true, false, Option, none, some}
use pg_grpc.Json.{Value}
use pg_grpc.Queue.{Db, LookupStatus, LookupResult, pending, lookup}

-- The columns of the row that the function returns.
pub record ResultColumns (N : Type 0) : Type 0 where
  pub id : ℕ
  pub status : String
  pub message : Option String
  pub response : Option (Value N)

module _ {N : Type 0} where
  unfoldable pub report : ℕ → LookupStatus N → ResultColumns N
  report id pending = record { id = id; status = "PENDING"; message = none; response = none }
  report id (LookupStatus.success v) = record {
    id = id;
    status = "SUCCESS";
    message = none;
    response = some v;
  }
  report id (LookupStatus.error msg) = record {
    id = id;
    status = "ERROR";
    message = some msg;
    response = none;
  }

  -- The loop from look `k`, for so many looks at most; other sessions and the worker change the
  -- tables from one look to the next. `none` is a wait that has not ended.
  unfoldable pub wait : ℕ → (ℕ → Db N) → ℕ → ℕ → Option (LookupResult N)
  wait ℕ.zero seen k id = none
  wait (suc fuel) seen k id = elim (lookup id (seen k)).status [
    | pending ↦ wait fuel seen (suc k) id
    | LookupStatus.success v ↦ some (lookup id (seen k))
    | LookupStatus.error msg ↦ some (lookup id (seen k))
  ]

  abbrev pub columns : LookupResult N → ResultColumns N
  columns r = report r.id r.status

  unfoldable pub grpc_call_result : ℕ → (ℕ → Db N) → ℕ → Bool → Option (ResultColumns N)
  grpc_call_result fuel seen id true = some (columns (lookup id (seen 0)))
  grpc_call_result fuel seen id false = elim (wait fuel seen 0 id) [
    | none ↦ none
    | some r ↦ some (columns r)
  ]
