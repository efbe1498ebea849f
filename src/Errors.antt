-- ===== src/Errors.antt =====
-- src/error.rs: the error type of every component, and its `Display`.
pub mod InTime
use pg_grpc.Common.{ℕ, String, Result}
use pg_grpc.Text.{◌⧺◌, display}

pub data GrpcError : Type 0 where
  connection proto proto_compile call : String → GrpcError
  timeout : ℕ → GrpcError

abbrev pub GrpcResult {ℓ} : Type ℓ → Type ℓ
GrpcResult A = Result GrpcError A

-- The `#[error(...)]` attributes.
unfoldable pub to_string : GrpcError → String
unfolding display
to_string (connection s) = "Connection error: " ⧺ s
to_string (proto s) = "Proto error: " ⧺ s
to_string (proto_compile s) = "Proto compile error: " ⧺ s
to_string (call s) = "gRPC call failed: " ⧺ s
to_string (timeout n) = "Request timeout: " ⧺ display n ⧺ "ms"
