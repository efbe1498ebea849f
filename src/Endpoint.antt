-- ===== src/Endpoint.antt =====
-- src/endpoint.rs: what is accepted as the address of a server.
pub mod Laws
mod Tests
use pg_grpc.Common.{String, ok, err, if◌then◌else◌}
use pg_grpc.Text.{◌⧺◌, trim, is_empty, contains_text, contains_char}
use pg_grpc.Errors.{GrpcResult, connection}

unfoldable pub validate_endpoint : String → GrpcResult String
unfolding trim contains_text contains_char
validate_endpoint endpoint =
    let trimmed = trim endpoint in
    if is_empty trimmed
    then err (connection "endpoint must not be empty")
    else if contains_text "://" trimmed
    then err (connection ("endpoint must not contain scheme (found '://'): " ⧺ trimmed))
    else if contains_char b'/' trimmed
    then err (connection ("endpoint must not contain path (found '/'): " ⧺ trimmed))
    else ok trimmed
