-- ===== src/Queue/Tests.antt =====
-- Runs of the queue's statements, and their theorems at concrete inputs.
use mathlib.Core.List.{Mem}
use pg_grpc.Common.{
  pos, ℕ, ◌≡◌, ◌↔◌, refl, true, false, none, some, List, [], ◌∷◌, map, contains, ℕ_discrete, nat_eq,
}
use pg_grpc.Common.Members.{distinct-Nodup}
use pg_grpc.Json.{null, number}
use pg_grpc.Queue.{
  QueueRow, CallOutcome, CallResult, LookupStatus, ResultRow, Db, pending, queue_ids, result_ids,
  dequeue, lookup, picked,
}
use pg_grpc.Queue.Store.{
  Accepts, insert_results, push_result, columns_from, unnest, insert_row, insert_rows,
}
use pg_grpc.Queue.Dequeue.{IsBatch, dequeue-IsBatch}
use pg_grpc.Queue.Results.{stored, insert_results-stored}
use pg_grpc.Queue.Lookup.{reported, lookup-insert_results, lookup-pending_iff}

abbrev pub waiting : ℕ → QueueRow ℕ
waiting id = record {
  id = id;
  endpoint = "localhost:50051";
  method = "pkg.S/M";
  request = number id;
  metadata = none;
  options = none;
  timeout_ms = pos 30000;
}

abbrev pub old_result : ResultRow ℕ
old_result = record {
  id = 1;
  status = "ERROR";
  response = none;
  error_msg = some "refused";
  created = 10;
}

-- The scan meets the third call before the second.
abbrev pub busy : Db ℕ
busy = record {
  next_id = 5;
  call_queue = waiting 3 ∷ waiting 2 ∷ waiting 4 ∷ [];
  call_result = old_result ∷ [];
}

takes_oldest : queue_ids (dequeue 2 busy).0 ≡ 3 ∷ 2 ∷ []
unfolding dequeue picked ℕ_discrete
takes_oldest = refl

dequeue-IsBatch_example : IsBatch 2 busy (dequeue 2 busy).0 (dequeue 2 busy).1
dequeue-IsBatch_example =
    dequeue-IsBatch 2 busy (unfold contains in distinct-Nodup (queue_ids busy.call_queue) refl)

abbrev accepts_all : Accepts ℕ
accepts_all v msg = true

abbrev answered : List (CallResult ℕ)
answered =
    record { id = 3; outcome = CallOutcome.success (number 9) }
    ∷ record { id = 2; outcome = CallOutcome.error "task panicked" }
    ∷ []

insert_results-stored_example :
    insert_results accepts_all 20 answered busy
    ≡ some (record busy { call_result = old_result ∷ map (stored 20) answered })
unfolding contains
insert_results-stored_example =
    insert_results-stored accepts_all 20 answered busy (distinct-Nodup (1 ∷ 3 ∷ 2 ∷ []) refl)
      (λ r m. refl)

refuses_known_id :
    insert_results accepts_all 20 (record { id = 1; outcome = CallOutcome.success null } ∷ []) busy
    ≡ none
unfolding insert_results columns_from push_result unnest insert_rows insert_row contains
refuses_known_id = refl

lookup-insert_results_example :
    (db' : Db ℕ) × (insert_results accepts_all 20 answered busy ≡ some db')
    × (lookup 2 db' ≡ record { id = 2; status = reported (CallOutcome.error "task panicked") })
unfolding contains
lookup-insert_results_example =
    lookup-insert_results accepts_all 20
      (record { id = 3; outcome = CallOutcome.success (number 9) } ∷ [])
      (record { id = 2; outcome = CallOutcome.error "task panicked" }) [] busy
      (distinct-Nodup (1 ∷ 3 ∷ 2 ∷ []) refl) (λ x m. refl)

waits : (lookup 3 busy).status ≡ pending
unfolding lookup
waits = refl

expired : (lookup 9 busy).status ≡ LookupStatus.error "not found — result may have expired"
unfolding lookup
expired = refl

lookup-pending_iff_example :
    ((lookup 3 busy).status ≡ pending)
    ↔ ((contains (result_ids busy.call_result) 3 ≡ false) × Mem 3 (queue_ids busy.call_queue))
lookup-pending_iff_example = lookup-pending_iff 3 busy
