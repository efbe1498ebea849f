-- ===== src/Call/Timed/Tests.antt =====
-- Runs of a call under its timeout, and their theorems at concrete inputs.
use pg_grpc.Common.{
  ℕ, ◌+◌, ◌≤◌, ◌<◌, ◌≡◌, refl, ap, true, false, none, some, ok, err, [], ◌∷◌, ltb, string_eq,
}
use pg_grpc.Common.Keys.{option_eq, pair_eq}
use pg_grpc.Text.{into_bytes}
use pg_grpc.Errors.{connection, proto, timeout}
use pg_grpc.HashMap
use pg_grpc.Json.{null, number}
use pg_grpc.Endpoint.{validate_endpoint}
use pg_grpc.ChannelCache.{tls_eq, builder_for}
use pg_grpc.Registry.{reflection, get_proto, insert_proto_reflection}
use pg_grpc.Proto.{backfill_from, backfill_wkts}
use pg_grpc.Proto.Fetch.{add_decoded, take_message, read_stream, fetch, fall_back, fetch_pool}
use pg_grpc.Call.Method.{parse_method}
use pg_grpc.Call.Metadata.{apply_metadata}
use pg_grpc.Call.Codec.{raw_encode, raw_decode}
use pg_grpc.Call.Messages.{find_method, resolve_method, encode_request, decode_response}
use pg_grpc.Call.Network.Sample.{sample_libraries, count}
use pg_grpc.Call.Async.{Request, Caches, prepare, with_channel, begin, resume}
use pg_grpc.Call.Async.Connects.{Connects, begin-Connects}
use pg_grpc.Call.Async.Finds.{Grows-refl, waits_left}
use pg_grpc.Call.Timed.{Schedule, completed, elapsed, run, call_with_timeout, make_grpc_call, waits}
use pg_grpc.Call.Timed.Laws.{Runs, OthersGrow, call_with_timeout-Runs}
use pg_grpc.Call.Timed.Warm.{warm_call}
use pg_grpc.Call.Timed.Late.{make_grpc_call-timeout}

-- A call of the method `M`, and then one of `L` to the same host.
abbrev pub first : Request ℕ
first = record {
  endpoint = "h:1";
  method = "S.f/M";
  request_json = null;
  use_reflection = true;
  metadata = none;
  tls = none;
  max_decode = none;
  max_encode = some 10;
}

abbrev second : Request ℕ
second = record first { endpoint = " h:1"; method = "S.f/L"; use_reflection = false }

abbrev pub no_caches : Caches sample_libraries
no_caches = record { channels = []; registry = [] }

-- Nobody else runs, and the replies come at 5, 6, ..., so many of them in time.
abbrev pub alone : ℕ → Schedule sample_libraries
alone n = record { now = λ k. 5 + k; in_time = λ k. ltb k n; others = λ k c. c }

pub alone_grows : (n : ℕ) → OthersGrow (alone n)
alone_grows n k c = Grows-refl c

abbrev warmed : Caches sample_libraries
warmed = record {
  channels = (("h:1", none), ("http://h:1", 5)) ∷ [];
  registry = ("S.f", record { pool = ("S.f", "f") ∷ []; origin = reflection "h:1" }) ∷ [];
}

answers :
    call_with_timeout sample_libraries first (alone 4) no_caches
    ≡ (warmed, completed (ok (number 4)))
unfolding call_with_timeout run begin resume validate_endpoint parse_method with_channel prepare
    builder_for HashMap.get HashMap.or_insert HashMap.insert get_proto insert_proto_reflection
    backfill_from backfill_wkts add_decoded take_message read_stream fetch fall_back fetch_pool
    apply_metadata find_method resolve_method encode_request decode_response count into_bytes
    raw_encode raw_decode
answers = refl

-- The deadline comes while the call is connecting: the channel is not stored.
too_late : call_with_timeout sample_libraries first (alone 0) no_caches ≡ (no_caches, elapsed)
unfolding call_with_timeout run begin validate_endpoint parse_method builder_for HashMap.get
too_late = refl

-- It comes while the call waits for the response: the caches keep what it has found.
late_response : call_with_timeout sample_libraries first (alone 3) no_caches ≡ (warmed, elapsed)
unfolding call_with_timeout run begin resume validate_endpoint parse_method with_channel prepare
    builder_for HashMap.get HashMap.or_insert HashMap.insert get_proto insert_proto_reflection
    backfill_from backfill_wkts add_decoded take_message read_stream fetch fall_back fetch_pool
    apply_metadata find_method resolve_method encode_request
late_response = refl

unknown_service : call_with_timeout sample_libraries second (alone 4) no_caches ≡ (
  record no_caches { channels = warmed.channels },
  completed (err (proto "service not found in registry and reflection disabled: S.f")),
)
unfolding call_with_timeout run begin resume validate_endpoint parse_method with_channel builder_for
    HashMap.get HashMap.or_insert HashMap.insert get_proto
unknown_service = refl

no_runtime :
    make_grpc_call sample_libraries first 7 (err "no threads") (alone 4) no_caches
    ≡ (no_caches, some (err (connection "no threads")))
unfolding make_grpc_call
no_runtime = refl

gives_up :
    make_grpc_call sample_libraries first 7 (ok tt) (alone 0) no_caches
    ≡ (no_caches, some (err (timeout 7)))
unfolding make_grpc_call call_with_timeout run begin validate_endpoint parse_method builder_for
    HashMap.get
gives_up = refl

reads_first : parse_method first.method ≡ ok ("S.f", "M")
unfolding parse_method
reads_first = refl

reads_second : parse_method second.method ≡ ok ("S.f", "L")
unfolding parse_method
reads_second = refl

valid_first : validate_endpoint first.endpoint ≡ ok "h:1"
unfolding validate_endpoint
valid_first = refl

valid_second : validate_endpoint second.endpoint ≡ ok "h:1"
unfolding validate_endpoint
valid_second = refl

call_with_timeout-Runs_example :
    Runs first no_caches (call_with_timeout sample_libraries first (alone 4) no_caches)
call_with_timeout-Runs_example = call_with_timeout-Runs first (alone 4) (alone_grows 4) no_caches

abbrev after_first : Caches sample_libraries
after_first = (call_with_timeout sample_libraries first (alone 4) no_caches).0

warm_call_example :
    ((begin sample_libraries second after_first).0 ≡ after_first)
    × (waits_left (begin sample_libraries second after_first).1 ≤ 2)
warm_call_example =
    warm_call first second (alone 4) no_caches after_first (number 4) "S.f" "M" "L" "h:1"
      (alone_grows 4) (ap (λ r. r.1) answers) (Grows-refl after_first) reads_first reads_second
      valid_first valid_second refl

abbrev seven_ms : ℕ
seven_ms = 7

make_grpc_call-timeout_example :
    (seven_ms ≡ seven_ms) × ((j : ℕ) × (j < waits) × ((alone 0).in_time j ≡ false))
make_grpc_call-timeout_example =
    make_grpc_call-timeout sample_libraries first (alone 0) seven_ms seven_ms (ok tt) no_caches
      (ap (λ r. r.1) gives_up)

begin-Connects_example :
    Connects sample_libraries first 5
      (λ m. m)
      no_caches
      "S.f"
      "M"
      (begin sample_libraries first no_caches).1
begin-Connects_example =
    begin-Connects sample_libraries first 5 (λ m. m) no_caches "S.f" "M" reads_first
