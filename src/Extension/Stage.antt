-- ===== src/Extension/Stage.antt =====
-- The staging functions of src/lib.rs.
pub mod Laws
mod Tests
use pg_grpc.Common.{String, Bool, Result, List, [], ◌∷◌, ok, err, ◌>>=◌, ◌>>◌, fail_if}
use pg_grpc.Text.{trim, is_empty}
use pg_grpc.Errors.{GrpcResult, proto_compile}
use pg_grpc.Staging
use pg_grpc.Staging.{Staged}

unfoldable pub validate_stage_input : String → String → GrpcResult (Unit {0})
validate_stage_input filename source = do
  fail_if (is_empty (trim filename)) (proto_compile "grpc_proto_stage: filename must not be empty")
  fail_if (is_empty (trim source)) (proto_compile "grpc_proto_stage: source must not be empty")
  ok tt

unfoldable pub grpc_proto_stage : String → String → Staged → GrpcResult Staged
grpc_proto_stage filename source files = do
  validate_stage_input filename source
  ok (Staging.stage_file filename source files)

unfoldable pub grpc_proto_unstage : String → Staged → Staged × Bool
grpc_proto_unstage filename files = Staging.remove filename files

unfoldable pub grpc_proto_unstage_all : Staged → Staged
grpc_proto_unstage_all files = Staging.clear files

unfoldable pub grpc_proto_list_staged : Staged → List (String × String)
grpc_proto_list_staged files = Staging.list files

-- The calls that change what is staged, as a session makes them.
pub data Call : Type 0 where
  stage : String → String → Call
  unstage : String → Call
  unstage_all : Call

-- A call that raises an error leaves the map as it was.
abbrev pub settle : Staged → GrpcResult Staged → Staged
settle files (ok next) = next
settle files (err e) = files

unfoldable pub step : Staged → Call → Staged
step files (stage filename source) = settle files (grpc_proto_stage filename source files)
step files (unstage filename) = (grpc_proto_unstage filename files).0
step files unstage_all = grpc_proto_unstage_all files

unfoldable pub run : Staged → List Call → Staged
run files [] = files
run files (c ∷ cs) = run (step files c) cs
