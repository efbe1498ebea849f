-- ===== src/Call/Tasks/Tests.antt =====
-- Two calls that overlap, and the theorem on interleavings at their run.
use pg_grpc.Common.{
  ℕ, String, List, arith, ok-injective, sym, some, ok, ap, ◌≡◌, refl, none, [], ◌∷◌, ◌++◌,
  string_eq,
}
use pg_grpc.Common.Keys.{option_eq, pair_eq}
use pg_grpc.HashMap
use pg_grpc.Endpoint.{validate_endpoint}
use pg_grpc.ChannelCache.{tls_eq, builder_for}
use pg_grpc.Registry.{reflection, get_proto}
use pg_grpc.Text.{into_bytes}
use pg_grpc.Call.Messages.{find_method, resolve_method, encode_request}
use pg_grpc.Call.Tasks.Pools.{GoodRegistry, Made}
use pg_grpc.Call.Tasks.Pools.Laws.{GoodFetches, good_requests}
use pg_grpc.Proto.{backfill_from, backfill_wkts}
use pg_grpc.Proto.Fetch.{add_decoded, take_message, read_stream, fetch, fall_back, fetch_pool}
use pg_grpc.Call.Tasks.Shared.{Sends, about_to, one_channel_each}
use pg_grpc.Call.Method.{parse_method}
use pg_grpc.Call.Network.Sample.{sample_libraries}
use pg_grpc.Call.Async.{
  Request, Caches, Prepared, Stage, fetching, readying, begin, resume, with_channel, prepare,
  client,
}
use pg_grpc.Call.Timed.Tests.{first, no_caches}
use pg_grpc.Call.Tasks.{Process, spawns, resumes, Reach, here, next}
use pg_grpc.Call.Tasks.Laws.{Follows, Reach-Follows}

-- The requests of both calls are the same.
module _ (c : Caches sample_libraries) where
  abbrev quiet : Process sample_libraries
  quiet = record { caches = c; tasks = [] }

  -- Both calls dial.
  abbrev one_dials : Process sample_libraries
  one_dials = record {
    caches = (begin sample_libraries first c).0;
    tasks = [] ++ (first, (begin sample_libraries first c).1) ∷ [];
  }

  abbrev both_dial : Process sample_libraries
  both_dial = record {
    caches = (begin sample_libraries first one_dials.caches).0;
    tasks = one_dials.tasks ++ (first, (begin sample_libraries first one_dials.caches).1) ∷ [];
  }

  -- The second is connected at 5, and the first, at 6, finds the channel of the second.
  abbrev second_connected : Caches sample_libraries × Stage sample_libraries
  second_connected =
      resume sample_libraries first 5 both_dial.caches
        (begin sample_libraries first one_dials.caches).1

  abbrev one_connected : Process sample_libraries
  one_connected = record {
    caches = second_connected.0;
    tasks = ((first, (begin sample_libraries first c).1) ∷ []) ++ (first, second_connected.1) ∷ [];
  }

  abbrev first_connected : Caches sample_libraries × Stage sample_libraries
  first_connected =
      resume sample_libraries first 6 one_connected.caches (begin sample_libraries first c).1

  abbrev both_connected : Process sample_libraries
  both_connected = record {
    caches = first_connected.0;
    tasks = [] ++ (first, first_connected.1) ∷ (first, second_connected.1) ∷ [];
  }

  overlap : Reach sample_libraries quiet both_connected
  overlap =
      next
        (next (next (next here (spawns first)) (spawns first)) (
          resumes 5 (one_dials.tasks) first (begin sample_libraries first one_dials.caches).1 []
            refl))
        (resumes 6 [] first (begin sample_libraries first c).1 ((first, second_connected.1) ∷ [])
          refl)

shares_channel : (first_connected no_caches).1 ≡ fetching "S.f" "M" ("http://h:1", 5)
unfolding begin resume with_channel validate_endpoint parse_method builder_for HashMap.get
    HashMap.or_insert HashMap.insert get_proto
shares_channel = refl

Reach-Follows_example : Follows (quiet no_caches) (both_connected no_caches)
Reach-Follows_example =
    Reach-Follows (quiet no_caches) (both_connected no_caches) refl (overlap no_caches)

-- With the descriptors at hand, both calls are ready to be sent once they are connected.
abbrev described : Caches sample_libraries
described = record no_caches {
  registry = ("S.f", record { pool = ("S.f", "f") ∷ []; origin = reflection "h:1" }) ∷ [];
}

abbrev ready : Prepared sample_libraries
ready = record {
  method_desc = "M";
  request_bytes = into_bytes "json";
  path = "/S.f/M";
  grpc = ("http://h:1", 5);
}

second_ready : (second_connected described).1 ≡ readying ready
unfolding begin resume with_channel validate_endpoint parse_method builder_for HashMap.get
    HashMap.or_insert HashMap.insert get_proto prepare resolve_method find_method encode_request
second_ready = refl

first_ready : (first_connected described).1 ≡ readying ready
unfolding begin resume with_channel validate_endpoint parse_method builder_for HashMap.get
    HashMap.or_insert HashMap.insert get_proto prepare resolve_method find_method encode_request
first_ready = refl

abbrev crowd : Process sample_libraries
crowd = both_connected described

first-Sends : Sends sample_libraries crowd first ready
first-Sends =
    about_to [] ((first, (second_connected described).1) ∷ [])
      (ap (λ st. (first, st) ∷ (first, (second_connected described).1) ∷ []) first_ready)

second-Sends : Sends sample_libraries crowd first ready
second-Sends =
    about_to ((first, (first_connected described).1) ∷ []) []
      (ap (λ st. (first, (first_connected described).1) ∷ (first, st) ∷ []) second_ready)

valid_host : validate_endpoint "h:1" ≡ ok "h:1"
unfolding validate_endpoint
valid_host = refl

one_channel_each_example :
    (channel : String × ℕ) × (HashMap.get crowd.caches.channels ("h:1", none) ≡ some channel)
    × (ready.grpc ≡ client sample_libraries first channel)
    × (ready.grpc ≡ client sample_libraries first channel)
one_channel_each_example =
    one_channel_each sample_libraries (quiet described) crowd first first ready ready "h:1" refl
      (overlap described) first-Sends second-Sends valid_host valid_host refl

-- The only descriptors of this network are those of the file `f`.
abbrev IsF : String → List (String × String) → Type 0
IsF service pool = pool ≡ ("S.f", "f") ∷ []

fetches-IsF : GoodFetches sample_libraries IsF
unfolding fetch_pool fall_back fetch read_stream take_message add_decoded backfill_wkts
    backfill_from
fetches-IsF now channel service max_decode max_encode pool h = ok-injective (sym h)

registered-IsF : GoodRegistry sample_libraries IsF described.registry
unfolding get_proto HashMap.get
registered-IsF service pool h = ground arith

good_requests_example :
    GoodRegistry sample_libraries IsF crowd.caches.registry
    × ((a : Request ℕ) (p : Prepared sample_libraries)
        → Sends sample_libraries crowd a p
        → Made sample_libraries IsF a p)
good_requests_example =
    good_requests sample_libraries IsF fetches-IsF (quiet described) crowd refl registered-IsF
      (overlap described)
