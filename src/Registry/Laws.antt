-- ===== src/Registry/Laws.antt =====
-- Which descriptors src/proto_registry.rs finds after a registration.
use pg_grpc.Common.{◌≡◌, refl, inl, inr, String, some, if◌then◌else◌, ◌==◌, string_eq, Bool-cases}
use pg_grpc.HashMap.Laws.{get-insert}
use pg_grpc.Registry.{Registry, get_proto, insert_proto_reflection}

module _ {DescriptorPool : Type 0} where
  pub get_proto-insert_proto_reflection :
      (name j : String) (pool : DescriptorPool) (endpoint : String)
      (services : Registry DescriptorPool)
      → get_proto j (insert_proto_reflection name pool endpoint services)
        ≡ (if name == j then some pool else get_proto j services)
  unfolding get_proto insert_proto_reflection
  get_proto-insert_proto_reflection name j pool endpoint services = elim (Bool-cases (name == j)) [
    | inl same ↦ rw (get-insert name j _ services, same) refl
    | inr other ↦ rw (get-insert name j _ services, other) refl
  ]
