-- ===== src/Wake.antt =====
-- src/shmem.rs, the commit callback of src/lib.rs and the outer loop of src/worker.rs: how a commit
-- wakes the worker. The shared memory is a flag and the address of the worker's latch; the latch
-- itself belongs to PostgreSQL.
pub mod Fair
pub mod System
pub mod Awake
pub mod Kept
pub mod Safety
pub mod Progress
mod Tests
use pg_grpc.Common.{ℕ, Bool, true, false, List, [], ◌∷◌, if◌then◌else◌, ltb}

-- SHOULD_WAKE and WORKER_LATCH, with the state of the latch that stands at the worker's address.
pub record Shmem : Type 0 where
  pub should_wake : Bool
  pub worker_latch : ℕ
  pub latch_set : Bool

abbrev pub store_latch : ℕ → Shmem → Shmem
store_latch latch m = record m { worker_latch = latch }

abbrev pub clear_latch : Shmem → Shmem
clear_latch m = record m { worker_latch = 0 }

-- An address of 0 is no latch.
abbrev pub set_latch : Shmem → Shmem
set_latch m = if ltb 0 m.worker_latch then record m { latch_set = true } else m

abbrev pub store_should_wake : Bool → Shmem → Shmem
store_should_wake wake m = record m { should_wake = wake }

-- The transaction events that PostgreSQL reports.
pub data XactEvent : Type 0 where
  commit parallel_commit abort parallel_abort : XactEvent
  pre_commit parallel_pre_commit prepare pre_prepare : XactEvent

-- What a backend does to the shared memory, one atomic step each.
pub data Action : Type 0 where
  mark_wake signal : Action

abbrev pub perform : Action → Shmem → Shmem
perform mark_wake m = store_should_wake true m
perform signal m = set_latch m

-- The flag after the swap, and the steps that it lets the callback take.
abbrev pub swap_active : Bool → Bool × List Action
swap_active true = (false, mark_wake ∷ signal ∷ [])
swap_active false = (false, [])

-- `wake_worker_on_commit`, from WAKE_CB_ACTIVE to its new value and the steps to take.
unfoldable pub wake_worker_on_commit : XactEvent → Bool → Bool × List Action
wake_worker_on_commit commit active = swap_active active
wake_worker_on_commit parallel_commit active = swap_active active
wake_worker_on_commit abort active = (false, [])
wake_worker_on_commit parallel_abort active = (false, [])
wake_worker_on_commit pre_commit active = (active, [])
wake_worker_on_commit parallel_pre_commit active = (active, [])
wake_worker_on_commit prepare active = (active, [])
wake_worker_on_commit pre_prepare active = (active, [])

-- `on_worker_exit`.
abbrev pub on_worker_exit : Shmem → Shmem
on_worker_exit m = clear_latch (store_should_wake true m)

-- The exchange of `should_wake` from true to false: the memory, and whether it took place.
abbrev pub take_wake : Shmem → Shmem × Bool
take_wake m = if m.should_wake then (store_should_wake false m, true) else (m, false)
