-- ===== src/Proto.antt =====
-- `compile_proto_files`, `backfill_wkts` and the in-memory resolver of src/proto.rs: staged sources to
-- a pool of descriptors.
pub mod Backfill
pub mod Fetch
mod Tests
use pg_grpc.Common.{
  String, Bool, true, false, Option, List, [], ◌∷◌, map, ok, ◌>>=◌, ◌>>◌, fail_if, map_err, Result,
  string_eq,
}
use pg_grpc.Text.{◌⧺◌}
use pg_grpc.Errors.{GrpcResult, proto_compile}
use pg_grpc.HashMap
use pg_grpc.HashMap.{HashMap}

-- protox and prost-reflect: what the program calls of them. An error is its text. A compiler resolves
-- a name by the function that it is made with, then among the files that protox bundles, and its file
-- set includes imports. A service is its full name and the name of its file.
pub record Descriptors : Type 1 where
  pub DescriptorPool : Type 0
  pub Compiler : Type 0
  pub FileDescriptorProto : Type 0
  pub with_file_resolver : (String → Option String) → Compiler
  pub open_file : Compiler → String → Result String Compiler
  pub file_descriptor_set : Compiler → List FileDescriptorProto
  pub new_pool : DescriptorPool
  pub add_file_descriptor_proto :
      DescriptorPool → FileDescriptorProto → Result String DescriptorPool
  pub services : DescriptorPool → List (String × String)
  pub has_file : DescriptorPool → String → Bool
  pub global_files : List (String × FileDescriptorProto)

abbrev pub is_nil : {A : Type 0} → List A → Bool
is_nil [] = true
is_nil (a ∷ l) = false

-- `InMemoryResolver::open_file`.
abbrev pub resolve : HashMap String String → String → Option String
resolve files name = HashMap.get files name

module _ (d : Descriptors) where
  unfoldable pub open_files : d.Compiler → List String → GrpcResult d.Compiler
  open_files compiler [] = ok compiler
  open_files compiler (name ∷ names) = do
    next ← map_err proto_compile (d.open_file compiler name)
    open_files next names

  unfoldable pub add_files :
      d.DescriptorPool → List d.FileDescriptorProto → GrpcResult d.DescriptorPool
  add_files pool [] = ok pool
  add_files pool (fdp ∷ fds) = do
    next ← map_err proto_compile (d.add_file_descriptor_proto pool fdp)
    add_files next fds

  -- One round of the loop over the well-known types.
  unfoldable pub backfill_file :
      Bool → String → d.FileDescriptorProto → d.DescriptorPool → GrpcResult d.DescriptorPool
  backfill_file true name fdp pool = ok pool
  backfill_file false name fdp pool =
      map_err (λ e. proto_compile ("seed WKT " ⧺ name ⧺ ": " ⧺ e))
        (d.add_file_descriptor_proto pool fdp)

  unfoldable pub backfill_from :
      List (String × d.FileDescriptorProto) → d.DescriptorPool → GrpcResult d.DescriptorPool
  backfill_from [] pool = ok pool
  backfill_from ((name, fdp) ∷ files) pool = do
    next ← backfill_file (d.has_file pool name) name fdp pool
    backfill_from files next

  unfoldable pub backfill_wkts : d.DescriptorPool → GrpcResult d.DescriptorPool
  backfill_wkts pool = backfill_from d.global_files pool

  unfoldable pub compile_proto_files : HashMap String String → GrpcResult d.DescriptorPool
  compile_proto_files files = do
    fail_if (is_nil files) (proto_compile "no proto files supplied")
    compiler ← open_files (d.with_file_resolver (resolve files)) (map (λ e. e.0) files)
    pool ← add_files d.new_pool (d.file_descriptor_set compiler)
    fail_if (is_nil (d.services pool)) (proto_compile "proto source defines no services")
    backfill_wkts pool
