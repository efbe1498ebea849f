-- ===== src/Call/Messages/Tests.antt =====
-- Runs of `resolve_method`, and its theorem at a concrete input.
use pg_grpc.Common.{◌≡◌, refl, String, List, [], ◌∷◌, ok, err, string_eq}
use pg_grpc.Errors.{proto}
use pg_grpc.HashMap
use pg_grpc.Call.Messages.{find_method, resolve_method}
use pg_grpc.Call.Messages.Laws.{Resolves, resolve_method-Resolves}
use pg_grpc.Call.Network.Sample.{sample_libraries}

abbrev pool : List (String × String)
pool = ("S.f", "f") ∷ []

finds : resolve_method sample_libraries pool "S.f" "M" ≡ ok "M"
unfolding resolve_method find_method HashMap.get
finds = refl

misses_method : resolve_method sample_libraries pool "S.f" "m" ≡ err (proto "method not found: m")
unfolding resolve_method find_method HashMap.get
misses_method = refl

misses_service : resolve_method sample_libraries pool "S" "M" ≡ err (proto "service not found: S")
unfolding resolve_method HashMap.get
misses_service = refl

resolve_method-Resolves_example :
    Resolves sample_libraries pool "S.f" "M" (resolve_method sample_libraries pool "S.f" "M")
resolve_method-Resolves_example = resolve_method-Resolves sample_libraries pool "S.f" "M"
