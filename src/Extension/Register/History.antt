-- ===== src/Extension/Register/History.antt =====
-- What is registered after any compilations, answers of reflection and removals: the registry of
-- src/proto_registry.rs seen as a function of the service's name.
pub mod Laws
mod Tests
use mathlib.Core.Option
use pg_grpc.Common.{
  ◌≡◌, ◌↔◌, refl, sym, ap, ◌∙◌, String, Option, none, some, List, [], ◌∷◌, Result, ok, err, ◌>>=◌,
  if◌then◌else◌, ◌==◌, string_eq, map, unwrap_or, Bool-cases, inl, inr,
}
use pg_grpc.Errors.{GrpcResult}
use pg_grpc.HashMap
use pg_grpc.HashMap.{IsMap, In}
use pg_grpc.HashMap.Laws.{get-empty, get-insert, get-remove, insert-IsMap, remove-IsMap, In-iff}
use pg_grpc.Staging.{Staged}
use pg_grpc.Registry
use pg_grpc.Registry.{
  Registry, Origin, RegisteredService, user_staged, reflection, insert_proto_manual,
  insert_proto_reflection, list,
}
use pg_grpc.Proto.{Descriptors, compile_proto_files}
use pg_grpc.Extension.Register.{
  register_services, grpc_proto_compile, grpc_proto_unregister, grpc_proto_unregister_all,
  registered_row, grpc_proto_list_registered,
}

module _ (d : Descriptors) where
  abbrev pub Services : Type 0
  Services = Registry d.DescriptorPool

  -- What changes the registry of a session.
  pub data Change : Type 0 where
    compiles : Staged → Change
    answers : String → d.DescriptorPool → String → Change
    unregisters : String → Change
    unregisters_all : Change

  -- A compilation that fails leaves the registry as it was.
  abbrev pub registry_of : Services → GrpcResult (Staged × Services) → Services
  registry_of old (ok (staged, registry)) = registry
  registry_of old (err e) = old

  abbrev pub change : Services → Change → Services
  change registry (compiles staged) = registry_of registry (grpc_proto_compile d staged registry)
  change registry (answers name pool endpoint) = insert_proto_reflection name pool endpoint registry
  change registry (unregisters name) = (grpc_proto_unregister d name registry).0
  change registry unregisters_all = grpc_proto_unregister_all d registry

  unfoldable pub changed : Services → List Change → Services
  changed registry [] = registry
  changed registry (c ∷ cs) = changed (change registry c) cs

  -- What one service of a compiled pool leaves of the origin that a name has.
  abbrev pub served : String → Staged → List (String × String) → Option Origin → Option Origin
  served name staged [] old = old
  served name staged ((n, file) ∷ services) old =
      served name staged services (
        if n == name then some (user_staged file (unwrap_or (HashMap.get staged file) "")) else old)

  abbrev pub compiled :
      String → Staged → GrpcResult d.DescriptorPool → Option Origin → Option Origin
  compiled name staged (ok pool) old = served name staged (d.services pool) old
  compiled name staged (err e) old = old

  -- What one change leaves of the origin that a name has.
  abbrev pub after : String → Change → Option Origin → Option Origin
  after name (compiles staged) old = compiled name staged (compile_proto_files d staged) old
  after name (answers n pool endpoint) old = if n == name then some (reflection endpoint) else old
  after name (unregisters n) old = if n == name then none else old
  after name unregisters_all old = none

  abbrev pub after_all : String → List Change → Option Origin → Option Origin
  after_all name [] old = old
  after_all name (c ∷ cs) old = after_all name cs (after name c old)

  abbrev pub origin_in : Services → String → Option Origin
  origin_in registry name = Option.map (λ s. s.origin) (HashMap.get registry name)
