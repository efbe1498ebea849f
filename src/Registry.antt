-- ===== src/Registry.antt =====
-- src/proto_registry.rs: the descriptor pool of each known service. Each function takes the map
-- behind the lock and returns the map that it leaves.
pub mod Laws
use mathlib.Core.Option
use pg_grpc.Common.{String, Bool, Option, List, [], map, string_eq}
use pg_grpc.HashMap
use pg_grpc.HashMap.{HashMap, is_some}

pub data Origin : Type 0 where
  user_staged : String → String → Origin
  reflection : String → Origin

pub record RegisteredService (DescriptorPool : Type 0) : Type 0 where
  pub pool : DescriptorPool
  pub origin : Origin

abbrev pub Registry : Type 0 → Type 0
Registry DescriptorPool = HashMap String (RegisteredService DescriptorPool)

module _ {DescriptorPool : Type 0} where
  unfoldable pub get_proto : String → Registry DescriptorPool → Option DescriptorPool
  get_proto service_name services = Option.map (λ r. r.pool) (HashMap.get services service_name)

  unfoldable pub insert_proto_manual :
      String → DescriptorPool → String → String → Registry DescriptorPool → Registry DescriptorPool
  insert_proto_manual service_name pool filename source services =
      HashMap.insert service_name (record { pool = pool; origin = user_staged filename source })
        services

  unfoldable pub insert_proto_reflection :
      String → DescriptorPool → String → Registry DescriptorPool → Registry DescriptorPool
  insert_proto_reflection service_name pool endpoint services =
      HashMap.insert service_name (record { pool = pool; origin = reflection endpoint }) services

  unfoldable pub remove : String → Registry DescriptorPool → Registry DescriptorPool × Bool
  remove service_name services =
      (HashMap.remove service_name services, is_some (HashMap.get services service_name))

  abbrev pub clear : Registry DescriptorPool → Registry DescriptorPool
  clear services = []

  unfoldable pub list : Registry DescriptorPool → List (String × Origin)
  list services = map (λ e. (e.0, e.1.origin)) services
