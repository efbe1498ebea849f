-- ===== src/Proto/Fetch/Tests.antt =====
-- Runs of `fetch_pool`, and its theorem at a concrete input.
use pg_grpc.Common.{◌≡◌, ◌⊎◌, refl, String, none, List, [], ◌∷◌, Result, ok, err}
use pg_grpc.Errors.{proto}
use pg_grpc.Proto.{backfill_from, backfill_wkts}
use pg_grpc.Proto.Fetch.{
  unimplemented, internal, Status, Version, v1, v1alpha, MessageResponse, file_descriptor_response,
  other_response, Reflection, add_decoded, take_message, read_stream, fetch, fall_back, fetch_pool,
}
use pg_grpc.Proto.Fetch.Laws.{Fetched, fetch_pool-ok}
use pg_grpc.Extension.Register.Tests.{one_service_each}

abbrev answer : Version → String → Result Status (List (Result Status (MessageResponse String)))
answer v1 name = err (record { code = unimplemented; message = "no v1" })
answer v1alpha name = ok (ok other_response ∷ ok (file_descriptor_response (name ∷ [])) ∷ [])

-- A server that has the older version only, and describes a service by the file of its name.
abbrev older : Reflection one_service_each
older = record {
  Bytes = String;
  decode = λ b. ok b;
  server_reflection_info = λ version max_decode max_encode name. answer version name;
}

abbrev broken : Reflection one_service_each
broken = record {
  Bytes = String;
  decode = λ b. ok b;
  server_reflection_info =
      λ version max_decode max_encode name. err (record { code = internal; message = "broken" });
}

fetched : fetch_pool older "f" none none ≡ ok (("S.f", "f") ∷ [])
unfolding fetch_pool fall_back fetch read_stream take_message add_decoded backfill_wkts
    backfill_from
fetched = refl

gives_up : fetch_pool broken "f" none none ≡ err (proto "reflection: broken")
unfolding fetch_pool fall_back fetch
gives_up = refl

fetch_pool-ok_example :
    (found : List (String × String)) × (Fetched older v1 "f" none none found
      ⊎ ((s : Status) × (fetch older v1 "f" none none ≡ err s)
          × (s.code ≡ unimplemented)
          × Fetched older v1alpha "f" none none found))
    × (backfill_wkts one_service_each found ≡ ok (("S.f", "f") ∷ []))
fetch_pool-ok_example = fetch_pool-ok older "f" none none (("S.f", "f") ∷ []) fetched
