-- ===== src/Call/Method/Tests.antt =====
-- Runs of `parse_method`, and its theorems at concrete inputs.
use pg_grpc.Common.{◌≡◌, ◌↔◌, refl, ok, err}
use pg_grpc.Call.Method.{invalid, parse_method}
use pg_grpc.Call.Method.Laws.{IsMethodPath, parse_method_iff}

reads : parse_method " pkg.Service / Method " ≡ ok ("pkg.Service", "Method")
unfolding parse_method
reads = refl

refuses_leading_slash : parse_method "/pkg.Service/Method" ≡ err (invalid "/pkg.Service/Method")
unfolding parse_method
refuses_leading_slash = refl

parse_method_iff_example : (parse_method "a.B/C" ≡ ok ("a.B", "C")) ↔ IsMethodPath "a.B/C" "a.B" "C"
parse_method_iff_example = parse_method_iff "a.B/C" "a.B" "C"

refuses_no_slash : parse_method "Method" ≡ err (invalid "Method")
unfolding parse_method
refuses_no_slash = refl
