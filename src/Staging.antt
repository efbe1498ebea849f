-- ===== src/Staging.antt =====
-- src/proto_staging.rs: the `.proto` files that wait for compilation. Each function takes the map
-- behind the lock and returns the map that it leaves.
use pg_grpc.Common.{String, Bool, List, [], map, string_eq}
use pg_grpc.HashMap
use pg_grpc.HashMap.{HashMap, is_some}

-- PENDING_FILES, from a filename to its source.
abbrev pub Staged : Type 0
Staged = HashMap String String

unfoldable pub stage_file : String → String → Staged → Staged
stage_file filename source files = HashMap.insert filename source files

abbrev pub snapshot : Staged → Staged
snapshot files = files

unfoldable pub remove : String → Staged → Staged × Bool
remove filename files = (HashMap.remove filename files, is_some (HashMap.get files filename))

unfoldable pub list : Staged → List (String × String)
list files = map (λ e. (e.0, e.1)) files

abbrev pub clear : Staged → Staged
clear files = []
