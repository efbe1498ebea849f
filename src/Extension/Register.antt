-- ===== src/Extension/Register.antt =====
-- The registry functions of src/lib.rs: compilation of the staged files, and what is registered.
pub mod Laws
pub mod History
pub mod Tests
use pg_grpc.Common.{
  String, Bool, Option, none, some, List, [], ◌∷◌, map, ok, err, ◌>>=◌, unwrap_or, string_eq,
}
use pg_grpc.Errors.{GrpcResult}
use pg_grpc.HashMap
use pg_grpc.Staging
use pg_grpc.Staging.{Staged}
use pg_grpc.Registry
use pg_grpc.Registry.{Registry, Origin, user_staged, reflection}
use pg_grpc.Proto.{Descriptors, compile_proto_files}

module _ (d : Descriptors) where
  -- The loop over the pool's services.
  unfoldable pub register_services :
      d.DescriptorPool
      → Staged
      → List (String × String)
      → Registry d.DescriptorPool
      → Registry d.DescriptorPool
  register_services pool staged [] registry = registry
  register_services pool staged ((full_name, filename) ∷ services) registry =
      register_services pool staged services (
        Registry.insert_proto_manual full_name pool filename
          (unwrap_or (HashMap.get staged filename) "") registry)

  unfoldable pub grpc_proto_compile :
      Staged → Registry d.DescriptorPool → GrpcResult (Staged × Registry d.DescriptorPool)
  grpc_proto_compile files registry = do
    let staged = Staging.snapshot files
    pool ← compile_proto_files d staged
    ok (Staging.clear files, register_services pool staged (d.services pool) registry)

  unfoldable pub grpc_proto_unregister :
      String → Registry d.DescriptorPool → Registry d.DescriptorPool × Bool
  grpc_proto_unregister service_name registry = Registry.remove service_name registry

  unfoldable pub grpc_proto_unregister_all : Registry d.DescriptorPool → Registry d.DescriptorPool
  grpc_proto_unregister_all registry = Registry.clear registry

-- A row of `grpc_proto_list_registered`.
pub record RegisteredRow : Type 0 where
  pub service_name : String
  pub origin : String
  pub filename : Option String
  pub source : Option String
  pub endpoint : Option String

abbrev pub registered_row : String × Origin → RegisteredRow
registered_row (name, user_staged filename source) = record {
  service_name = name;
  origin = "user";
  filename = some filename;
  source = some source;
  endpoint = none;
}
registered_row (name, reflection endpoint) = record {
  service_name = name;
  origin = "reflection";
  filename = none;
  source = none;
  endpoint = some endpoint;
}

unfoldable pub grpc_proto_list_registered :
    {DescriptorPool : Type 0} → Registry DescriptorPool → List RegisteredRow
grpc_proto_list_registered registry = map registered_row (Registry.list registry)
