-- ===== src/Extension/Enqueue/Tests.antt =====
-- Runs of `grpc_call_async`, and its theorems at concrete inputs.
use mathlib.Core.List.{Mem}
use pg_grpc.Common.{ℕ, pos, ◌≡◌, ◌↔◌, refl, true, false, none, some, ok, err, contains, nat_eq}
use pg_grpc.Json.{null, number, object, end, field, get}
use pg_grpc.Json.Sample.{sample_numbers}
use pg_grpc.Text.{trim, contains_text, contains_char, rsplit_once, display}
use pg_grpc.Errors.{to_string}
use pg_grpc.Options
use pg_grpc.Options.{check_keys, parse_positive_u64, check_positive}
use pg_grpc.Endpoint.{validate_endpoint}
use pg_grpc.Call.Method.{parse_method, check_parts}
use pg_grpc.Queue.{lookup, pending}
use pg_grpc.Queue.Tests.{busy}
use pg_grpc.Worker.Rounds.{known}
use pg_grpc.Worker.Ids.{WellKept}
use pg_grpc.Worker.Tests.{busy-WellKept}
use pg_grpc.Extension.Enqueue.{Session, row_timeout, read_options, enqueue, grpc_call_async}
use pg_grpc.Extension.Enqueue.Laws.{Accepted, queued, grpc_call_async-ok_iff}
use pg_grpc.Extension.Enqueue.Ids.{grpc_call_async-WellKept}

abbrev session : Session ℕ
session = record { db = busy; wake_cb_active = false }

abbrev called : Session ℕ × ℕ
called = enqueue sample_numbers "localhost:50051" "pkg.S/M" null none none (pos 30000) session

accepts :
    grpc_call_async sample_numbers "localhost:50051" "pkg.S/M" null none none session ≡ ok called
unfolding grpc_call_async validate_endpoint trim contains_text contains_char parse_method
    rsplit_once check_parts read_options row_timeout
accepts = refl

refuses_long_timeout :
    grpc_call_async sample_numbers "localhost:50051" "pkg.S/M" null none
      (some (object (field "timeout_ms" (number 2147483648) end)))
      session
    ≡ err "options.timeout_ms must be <= 2147483647"
unfolding grpc_call_async validate_endpoint trim contains_text contains_char parse_method
    rsplit_once check_parts read_options row_timeout Options.parse check_keys contains get
    parse_positive_u64 check_positive display
refuses_long_timeout = refl

refuses_scheme :
    grpc_call_async sample_numbers "http://h" "M" null none none session
    ≡ err "Connection error: endpoint must not contain scheme (found '://'): http://h"
unfolding grpc_call_async validate_endpoint trim contains_text to_string
refuses_scheme = refl

grpc_call_async-ok_iff_example :
    (grpc_call_async sample_numbers "localhost:50051" "pkg.S/M" null none none session ≡ ok called)
    ↔ ((t : ℕ) × Accepted sample_numbers "localhost:50051" "pkg.S/M" none t
        × (called ≡ queued sample_numbers "localhost:50051" "pkg.S/M" null none none t session))
grpc_call_async-ok_iff_example =
    grpc_call_async-ok_iff sample_numbers "localhost:50051" "pkg.S/M" null none none session called

grpc_call_async-WellKept_example :
    ¬ Mem called.1 (known busy)
    × WellKept called.0.db
    × ((lookup called.1 called.0.db).status ≡ pending)
    × (called.0.wake_cb_active ≡ true)
grpc_call_async-WellKept_example =
    grpc_call_async-WellKept sample_numbers "localhost:50051" "pkg.S/M" null none none session
      called.0 called.1 busy-WellKept accepts
