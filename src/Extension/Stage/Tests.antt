-- ===== src/Extension/Stage/Tests.antt =====
-- Runs of the staging calls, and their theorems at concrete inputs.
use pg_grpc.Common.{◌≡◌, ◌↔◌, refl, List, [], ◌∷◌, none, some, err, string_eq}
use pg_grpc.Text.{trim}
use pg_grpc.HashMap
use pg_grpc.HashMap.{In, is_some}
use pg_grpc.Errors.{proto_compile}
use pg_grpc.Staging
use pg_grpc.Extension.Stage.{
  validate_stage_input, grpc_proto_stage, grpc_proto_unstage, grpc_proto_list_staged, Call, stage,
  unstage, step, run,
}
use pg_grpc.Extension.Stage.Laws.{after_all, listed_iff}

abbrev session : List Call
session =
    stage "a.proto" "old"
    ∷ stage "b.proto" "b"
    ∷ stage "a.proto" "new"
    ∷ stage " " "c"
    ∷ unstage "b.proto"
    ∷ []

leaves_last : grpc_proto_list_staged (run [] session) ≡ ("a.proto", "new") ∷ []
unfolding run step grpc_proto_stage validate_stage_input trim Staging.stage_file HashMap.insert
    grpc_proto_unstage Staging.remove HashMap.remove grpc_proto_list_staged Staging.list
leaves_last = refl

refuses_blank_source :
    grpc_proto_stage "a.proto" "\n" []
    ≡ err (proto_compile "grpc_proto_stage: source must not be empty")
unfolding grpc_proto_stage validate_stage_input trim
refuses_blank_source = refl

listed_iff_example :
    In "a.proto" "new" (grpc_proto_list_staged (run [] session))
    ↔ (after_all "a.proto" session none ≡ some "new")
listed_iff_example = listed_iff session "a.proto" "new"
