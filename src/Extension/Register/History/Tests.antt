-- ===== src/Extension/Register/History/Tests.antt =====
-- Runs of the registry's changes, and the theorem on its listing at a concrete input.
use pg_grpc.Common.{◌≡◌, ◌↔◌, refl, String, none, some, List, [], ◌∷◌, map, string_eq}
use pg_grpc.HashMap
use pg_grpc.HashMap.{IsMap, In}
use pg_grpc.Registry.{Origin, insert_proto_manual, insert_proto_reflection, list}
use pg_grpc.Proto.{open_files, add_files, backfill_from, backfill_wkts, compile_proto_files}
use pg_grpc.Extension.Register.{
  register_services, grpc_proto_compile, registered_row, grpc_proto_list_registered,
}
use pg_grpc.Extension.Register.Tests.{one_service_each}
use pg_grpc.Extension.Register.History.{Change, compiles, answers, changed, after_all}
use pg_grpc.Extension.Register.History.Laws.{registered_iff}

-- A compilation takes the name of a service that reflection found; then another compilation fails.
abbrev session : List (Change one_service_each)
session =
    answers "S.a.proto" [] "h:1"
    ∷ answers "T" [] "h:2"
    ∷ compiles (("a.proto", "service A") ∷ [])
    ∷ compiles []
    ∷ []

lists :
    grpc_proto_list_registered (changed one_service_each [] session)
    ≡ record {
      service_name = "S.a.proto";
      origin = "user";
      filename = some "a.proto";
      source = some "service A";
      endpoint = none;
    }
      ∷ record {
        service_name = "T";
        origin = "reflection";
        filename = none;
        source = none;
        endpoint = some "h:2";
      }
      ∷ []
unfolding grpc_proto_list_registered list changed grpc_proto_compile compile_proto_files open_files
    add_files backfill_wkts backfill_from register_services insert_proto_manual
    insert_proto_reflection HashMap.get HashMap.insert
lists = refl

registered_iff_example :
    (entries : List (String × Origin)) × (grpc_proto_list_registered
        (changed one_service_each [] session)
      ≡ map registered_row entries)
    × IsMap entries
    × ((name : String) (origin : Origin)
        → In name origin entries ↔ (after_all one_service_each name session none ≡ some origin))
registered_iff_example = registered_iff one_service_each session
