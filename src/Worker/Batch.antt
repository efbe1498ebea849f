-- ===== src/Worker/Batch.antt =====
-- One batch of src/worker.rs: every call gets exactly one result, under its own id.
use mathlib.Core.List.{Perm, List, [], ◌∷◌, map}
use mathlib.Core.List.Perm
use pg_grpc.Common.{
  ℕ, suc, ◌<◌, ◌≡◌, refl, ap₂, ◌∙◌, subst, Option, none, some, arith, nat_eq, ==_refl,
}
use pg_grpc.HashMap
use pg_grpc.HashMap.{HashMap}
use pg_grpc.HashMap.Laws.{get-insert}
use pg_grpc.Queue.{QueueRow, CallResult}
use pg_grpc.Worker.{
  Runtime, spawn_all, task_ids, panic_result, join_result, joined, run_task, run_batch,
}

module _ {N : Type 0} where
  get-task_ids_below :
      (task : ℕ) (rows : List (QueueRow N)) (ids : HashMap ℕ ℕ) (t : ℕ)
      → t < task
      → HashMap.get (task_ids task rows ids) t ≡ HashMap.get ids t
  unfolding task_ids
  get-task_ids_below task [] ids t h = refl
  get-task_ids_below task (row ∷ rows) ids t h =
      get-task_ids_below (suc task) rows (HashMap.insert task row.id ids) t (omega arith)
      ∙ get-insert task t row.id ids
      ∙ ground arith

  get-task_ids_first :
      (task : ℕ) (row : QueueRow N) (rows : List (QueueRow N)) (ids : HashMap ℕ ℕ)
      → HashMap.get (task_ids task (row ∷ rows) ids) task ≡ some row.id
  unfolding task_ids
  get-task_ids_first task row rows ids =
      get-task_ids_below (suc task) rows (HashMap.insert task row.id ids) task (omega arith)
      ∙ get-insert task task row.id ids
      ∙ rw (==_refl task)

  abbrev pub due_of : ℕ → Option (CallResult N) → CallResult N
  due_of id (some r) = r
  due_of id none = panic_result id

  join_result-due_of :
      (ids : HashMap ℕ ℕ) (task id : ℕ) (o : Option (CallResult N))
      → HashMap.get ids task ≡ some id
      → join_result ids (joined task o) ≡ due_of id o
  join_result-due_of ids task id (some r) e = refl
  join_result-due_of ids task id none e = rw e

module _ {N : Type 0} (rt : Runtime N) where
  -- The result that a call of the queue is due: its own, or the report of its panic.
  abbrev pub due : QueueRow N → CallResult N
  due row = due_of row.id (rt.finish row)

  -- `call_async_row` answers under the id of its row.
  abbrev pub KeepsIds : Type 0
  KeepsIds = (row : QueueRow N) (r : CallResult N) → rt.finish row ≡ some r → r.id ≡ row.id

  pub due-id : KeepsIds → (row : QueueRow N) → (due row).id ≡ row.id
  due-id keeps row = go (rt.finish row) refl
    where
      go : (o : Option (CallResult N)) → rt.finish row ≡ o → (due_of row.id o).id ≡ row.id
      go none e = refl
      go (some r) e = keeps row r e

  pub map-due-ids :
      KeepsIds
      → (rows : List (QueueRow N)) → map (λ r. r.id) (map due rows) ≡ map (λ row. row.id) rows
  map-due-ids keeps [] = refl
  map-due-ids keeps (row ∷ rows) = ap₂ ◌∷◌ (due-id keeps row) (map-due-ids keeps rows)

  joined-due :
      (task : ℕ) (rows : List (QueueRow N)) (ids : HashMap ℕ ℕ)
      → map (join_result (task_ids task rows ids)) (map (run_task rt) (spawn_all task rows))
        ≡ map due rows
  unfolding spawn_all task_ids
  joined-due task [] ids = refl
  joined-due task (row ∷ rows) ids =
      ap₂ ◌∷◌
        (join_result-due_of (task_ids task (row ∷ rows) ids) task row.id (rt.finish row)
          (get-task_ids_first task row rows ids))
        (joined-due (suc task) rows (HashMap.insert task row.id ids))

  -- Whatever order the tasks of a batch complete in, and whichever of them panic, the batch's
  -- results are those that its calls are due, one for each call.
  pub run_batch-perm :
      (k : ℕ) (rows : List (QueueRow N)) → Perm (run_batch rt k rows) (map due rows)
  unfolding run_batch
  run_batch-perm k rows =
      subst (Perm _) (joined-due 0 rows [])
        (Perm.map (join_result (task_ids 0 rows [])) (rt.complete-perm k _))
