-- ===== src/Extension/Sync/Tests.antt =====
-- A call by both paths, and the theorems on them at its run.
use mathlib.Core.List.{Nodup}
use pg_grpc.Common.{
  pos, ℕ, ◌<◌, ◌≡◌, refl, false, none, some, ok, err, [], ◌∷◌, ◌++◌, contains, arith, length,
  ℕ_discrete, nat_eq,
}
use pg_grpc.Common.Members.{distinct-Nodup}
use pg_grpc.Text.{trim, contains_text, contains_char, rsplit_once, display}
use pg_grpc.Errors.{to_string}
use pg_grpc.HashMap
use pg_grpc.Json.{null}
use pg_grpc.Json.Sample.{sample_numbers}
use pg_grpc.Endpoint.{validate_endpoint}
use pg_grpc.ChannelCache.{builder_for}
use pg_grpc.Call.Method.{parse_method, check_parts}
use pg_grpc.Queue.{CallOutcome, Db, lookup, insert_call}
use pg_grpc.Queue.Lookup.{reported}
use pg_grpc.Queue.Store.{ttl_cleanup}
use pg_grpc.Queue.Tests.{busy}
use pg_grpc.Worker.{drain, idle}
use pg_grpc.Worker.Rounds.{known, cleanup}
use pg_grpc.Worker.Tests.{cleanup_keeps, sample}
use pg_grpc.Call.Network.Sample.{sample_libraries}
use pg_grpc.Call.Async.{Caches, begin}
use pg_grpc.Call.Timed.{Schedule, run, call_with_timeout, make_grpc_call}
use pg_grpc.Call.Timed.Laws.{OthersGrow}
use pg_grpc.Call.Timed.Tests.{alone, alone_grows, no_caches}
use pg_grpc.Call.Row.{call_async_row, row_options}
use pg_grpc.Call.Row.Laws.{World, live}
use pg_grpc.Extension.Enqueue.{Session, row_timeout, read_options, enqueue, grpc_call_async}
use pg_grpc.Extension.Sync.{grpc_call}
use pg_grpc.Extension.Sync.Laws.{Agrees, queued_row, AnswersAlike, grpc_call_async-AnswersAlike}
use pg_grpc.Extension.Sync.EndToEnd.{queued_call_answered}

abbrev session : Session ℕ
session = record { db = busy; wake_cb_active = false }

abbrev called : Session ℕ × ℕ
called = enqueue sample_numbers "h:1" "S.f/M" null none none (pos 30000) session

accepts : grpc_call_async sample_numbers "h:1" "S.f/M" null none none session ≡ ok called
unfolding grpc_call_async validate_endpoint trim contains_text contains_char parse_method
    rsplit_once check_parts read_options row_timeout
accepts = refl

-- The two paths put a timeout in different words.
late :
    (grpc_call sample_libraries "h:1" "S.f/M" null none none (ok tt) (alone 0) no_caches).1
    ≡ some (err "Request timeout: 30000ms")
unfolding grpc_call read_options make_grpc_call call_with_timeout run begin validate_endpoint
    parse_method builder_for HashMap.get to_string
late = refl

queued_late :
    (call_async_row sample_libraries
      (queued_row sample_libraries "h:1" "S.f/M" null none none 30000 5)
      (alone 0)
      no_caches).1
    ≡ some (record { id = 5; outcome = CallOutcome.error "timeout after 30000ms" })
unfolding call_async_row row_options call_with_timeout run begin validate_endpoint parse_method
    builder_for HashMap.get display
queued_late = refl

grpc_call_async-AnswersAlike_example :
    (t : ℕ) × (called.0.db.call_queue
      ≡ session.db.call_queue
        ++ queued_row sample_libraries "h:1" "S.f/M" null none none t called.1 ∷ [])
    × ((sched : Schedule sample_libraries) (c : Caches sample_libraries)
        → OthersGrow sched
        → AnswersAlike sample_libraries
            (queued_row sample_libraries "h:1" "S.f/M" null none none t called.1)
            sched
            c)
grpc_call_async-AnswersAlike_example =
    grpc_call_async-AnswersAlike sample_libraries "h:1" "S.f/M" null none none session called.0
      called.1 accepts

-- Each task has its replies in time, and none panics.
abbrev fine : World sample_libraries
fine = record { schedule = λ row. alone 4; caches = λ row. no_caches; panics = λ row. false }

keeps_all : (j : ℕ) (d : Db ℕ) → cleanup (live sample_libraries sample fine) j d ≡ d
unfolding ttl_cleanup
keeps_all j d = cleanup_keeps j d

distinct_ids : Nodup (known called.0.db)
unfolding contains enqueue insert_call
distinct_ids = distinct-Nodup (known called.0.db) refl

few_calls : length called.0.db.call_queue < 5
unfolding enqueue insert_call
few_calls = omega arith

queued_call_answered_example :
    (db' : Db ℕ) × (drain (live sample_libraries sample fine) 5 0 called.0.db ≡ idle db')
    × ((t : ℕ) × (o : CallOutcome ℕ) × Agrees sample_libraries called.1 t
          (grpc_call sample_libraries "h:1" "S.f/M" null none none (ok tt) (alone 4) no_caches).1
          (some (record { id = called.1; outcome = o }))
        × (lookup called.1 db' ≡ record { id = called.1; status = reported o }))
queued_call_answered_example =
    queued_call_answered sample_libraries ℕ_discrete sample fine (omega arith) keeps_all (λ j. refl)
      (λ row. alone_grows 4) "h:1" "S.f/M" null none none session called.0 called.1 5 0 called.0.db
      accepts (λ row m. m) distinct_ids (record { accepted = λ r m. refl; no_raise = λ j p. cc })
      (λ row e. refl) few_calls
