-- ===== src/Call/Method.antt =====
-- `parse_method` of src/call.rs: a method path, as its service and its method.
pub mod Laws
mod Tests
use pg_grpc.Common.{String, ◌||◌, ok, err, none, some, if◌then◌else◌}
use pg_grpc.Text.{◌⧺◌, trim, is_empty, contains_char, rsplit_once}
use pg_grpc.Errors.{GrpcError, GrpcResult, proto}

abbrev pub invalid : String → GrpcError
invalid method = proto ("invalid method path (expected 'Service/Method'): " ⧺ method)

-- The tests on the two parts of the path, once it is split and trimmed.
unfoldable pub check_parts : String → String → String → GrpcResult (String × String)
check_parts method service name =
    if is_empty service || is_empty name || contains_char b'/' service
    then err (invalid method)
    else ok (service, name)

unfoldable pub parse_method : String → GrpcResult (String × String)
unfolding trim contains_char rsplit_once check_parts
parse_method method = elim (rsplit_once b'/' method) [
  | none ↦ err (invalid method)
  | some (service, name) ↦ check_parts method (trim service) (trim name)
]
