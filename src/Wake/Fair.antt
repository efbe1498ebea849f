-- ===== src/Wake/Fair.antt =====
-- The queue of src/worker.rs between the commits of sessions, and how far a call is from its turn.
pub mod Ahead
pub mod Laws
mod Tests
use mathlib.Core.List.{
  List, [], ◌∷◌, ◌++◌, map, map-append, Perm, Permᴰ, Mem, Nodup, mem-append, mem-cons,
  mem-cons_self, not-mem-nil, Mem-prop, exists_of_mem-map,
}
use mathlib.Core.List.Perm
use mathlib.Core.Logic.{∥∥₁_elim}
use mathlib.Core.Logic.Or
use native.Mathlib.Nat.{ℕ_set, suc-mul}
use Prim.Native.Nat.{min}
use pg_grpc.Common.{
  ℕ, suc, ◌+◌, ◌*◌, ◌≤◌, ◌<◌, ◌≡◌, ◌≢◌, ◌⊎◌, refl, sym, ap, ◌∙◌, subst, inl, inr, true, false,
  Bool-cases, arith, ltb, length, length-append, contains, nat_eq, if◌then◌else◌,
}
use native.Mathlib.Bridge.{le_prop}
use pg_grpc.Common.Perms.{length-perm}
use pg_grpc.Common.Members.{contains_of_mem, mem_of_contains}
use pg_grpc.Queue.{QueueRow, Db, queue_ids, result_ids, lookup, pending}
use pg_grpc.Queue.Dequeue.{IsBatch}
use pg_grpc.Queue.Lookup.{lookup-pending_iff}
use pg_grpc.Worker.{Runtime, Round, drained, stored_batch, round}
use pg_grpc.Worker.Batch.{KeepsIds}
use pg_grpc.Worker.Ids.{Leaves}
use pg_grpc.Queue.Results.{stored}
use pg_grpc.Wake.System.{with_calls}
use pg_grpc.Worker.Rounds.{known, cleanup, Stores, RoundOf, ended, stores, round-RoundOf}
use pg_grpc.Worker.Kept.{Stores-known, ended-known, known-stored}

module _ {N : Type 0} (i : ℕ) where
  unfoldable pub weight : QueueRow N → ℕ
  weight r = if ltb i r.id then 0 else 1

  -- How many calls of the queue come no later than the id.
  unfoldable pub ahead : List (QueueRow N) → ℕ
  ahead [] = 0
  ahead (r ∷ rows) = weight r + ahead rows

-- The tables, as sessions and the worker change them: `rounds` rounds of the inner loop that stored a
-- batch or found the queue empty, and commits of calls, of which `passing` come no later than the id
-- `i`. A session may commit its calls later than another that got its ids after it.
module _ {N : Type 0} (rt : Runtime N) (i : ℕ) where
  pub data Run (db : Db N) : ℕ → ℕ → Db N → Type 0 where
    starts : Run db 0 0 db
    commits :
        {rounds passing : ℕ} {now : Db N} (rows : List (QueueRow N))
        → Run db rounds passing now
        → Nodup (known (with_calls rows now))
        → Run db rounds (passing + ahead i rows) (with_calls rows now)
    stores_batch :
        {rounds passing : ℕ} {now : Db N} (k : ℕ) (after : Db N)
        → Run db rounds passing now
        → round rt k now ≡ stored_batch after
        → Run db (suc rounds) passing after
    finishes :
        {rounds passing : ℕ} {now : Db N} (k : ℕ) (after : Db N)
        → Run db rounds passing now
        → round rt k now ≡ drained after
        → Run db (suc rounds) passing after
