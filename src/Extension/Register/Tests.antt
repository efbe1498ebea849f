-- ===== src/Extension/Register/Tests.antt =====
-- Runs of `grpc_proto_compile`, and its theorem at a concrete input.
use pg_grpc.Common.{
  ◌≡◌, refl, String, Option, none, some, true, false, Result, List, [], ◌∷◌, ◌++◌, ok, err,
  string_eq,
}
use pg_grpc.Text.{◌⧺◌}
use pg_grpc.Errors.{proto_compile}
use pg_grpc.HashMap
use pg_grpc.Staging.{Staged}
use pg_grpc.Registry
use pg_grpc.Registry.{Registry, user_staged, reflection, insert_proto_manual}
use pg_grpc.Proto.{
  Descriptors, open_files, add_files, backfill_from, backfill_wkts, compile_proto_files,
}
use pg_grpc.Extension.Register.{
  register_services, grpc_proto_compile, grpc_proto_unregister, grpc_proto_list_registered,
}
use pg_grpc.Extension.Register.Laws.{Registers, grpc_proto_compile-ok}

abbrev pub Opened : Type 0
Opened = (String → Option String) × List String

abbrev pub opened : Opened → String → Option String → Result String Opened
opened c name none = err "not found"
opened c name (some source) = ok (c.0, c.1 ++ name ∷ [])

-- Each file that is opened defines one service, named after it.
abbrev pub one_service_each : Descriptors
one_service_each = record {
  DescriptorPool = List (String × String);
  Compiler = Opened;
  FileDescriptorProto = String;
  with_file_resolver = λ resolver. (resolver, []);
  open_file = λ c name. opened c name (c.0 name);
  file_descriptor_set = λ c. c.1;
  new_pool = [];
  add_file_descriptor_proto = λ pool name. ok (pool ++ ("S." ⧺ name, name) ∷ []);
  services = λ pool. pool;
  has_file = λ pool name. false;
  global_files = [];
}

abbrev staged : Staged
staged = ("a.proto", "service A") ∷ []

abbrev no_files : Staged
no_files = []

abbrev old : Registry (List (String × String))
old = ("T", record { pool = []; origin = reflection "h:1" }) ∷ []

abbrev new_pool : List (String × String)
new_pool = ("S.a.proto", "a.proto") ∷ []

abbrev both : Registry (List (String × String))
both =
    ("T", record { pool = []; origin = reflection "h:1" })
    ∷ ("S.a.proto", record { pool = new_pool; origin = user_staged "a.proto" "service A" })
    ∷ []

compiles : grpc_proto_compile one_service_each staged old ≡ ok ([], both)
unfolding grpc_proto_compile compile_proto_files open_files add_files backfill_wkts backfill_from
    register_services insert_proto_manual HashMap.get HashMap.insert
compiles = refl

nothing_staged :
    grpc_proto_compile one_service_each [] old ≡ err (proto_compile "no proto files supplied")
unfolding grpc_proto_compile compile_proto_files
nothing_staged = refl

unregisters : (grpc_proto_unregister one_service_each "T" both).1 ≡ true
unfolding grpc_proto_unregister Registry.remove HashMap.get
unregisters = refl

lists :
    grpc_proto_list_registered old
    ≡ record {
      service_name = "T";
      origin = "reflection";
      filename = none;
      source = none;
      endpoint = some "h:1";
    }
      ∷ []
unfolding grpc_proto_list_registered Registry.list
lists = refl

grpc_proto_compile-ok_example :
    (pool : List (String × String)) × (compile_proto_files one_service_each staged ≡ ok pool)
    × (no_files ≡ [])
    × ((name : String)
        → Registers one_service_each pool staged pool name
            (HashMap.get old name)
            (HashMap.get both name))
grpc_proto_compile-ok_example =
    grpc_proto_compile-ok one_service_each staged no_files old both compiles
