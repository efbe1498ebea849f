-- ===== src/Endpoint/Tests.antt =====
-- Runs of the endpoint check, and its theorems at concrete inputs.
use pg_grpc.Common.{◌≡◌, refl, ok, err}
use pg_grpc.Errors.{connection}
use pg_grpc.Endpoint.{validate_endpoint}
use pg_grpc.Endpoint.Laws.{Validates, validate_endpoint-Validates}

trims : validate_endpoint " localhost:50051\n" ≡ ok "localhost:50051"
unfolding validate_endpoint
trims = refl

refuses_scheme :
    validate_endpoint "http://h:1"
    ≡ err (connection "endpoint must not contain scheme (found '://'): http://h:1")
unfolding validate_endpoint
refuses_scheme = refl

refuses_blank : validate_endpoint "  " ≡ err (connection "endpoint must not be empty")
unfolding validate_endpoint
refuses_blank = refl

validate_endpoint-Validates_example : Validates "h:1/x" (validate_endpoint "h:1/x")
validate_endpoint-Validates_example = validate_endpoint-Validates "h:1/x"
