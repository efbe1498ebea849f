-- ===== src/Tls.antt =====
-- src/tls.rs: the TLS settings of a call, read from the JSON value of the `tls` option.
pub mod Laws
pub mod Build
pub mod Credentials
pub mod Tests
use pg_grpc.Common.{
  ℕ, String, Option, none, some, List, [], ◌∷◌, ok, err, ◌>>=◌, ◌>>◌, contains, not, fail_if,
  if◌then◌else◌, string_eq,
}
use mathlib.Core.Option
use pg_grpc.Text.{◌⧺◌, trim, is_empty, join, into_bytes}
use pg_grpc.Errors.{GrpcResult, connection}
use pg_grpc.Json.{Value, null, bool, number, string, array, object, Fields, entries, get}

abbrev pub accepted_fields : List String
accepted_fields = "ca_cert" ∷ "client_cert" ∷ "client_key" ∷ "domain_name" ∷ []

pub record TlsConfig : Type 0 where
  pub ca_cert : Option (List ℕ)
  pub client_cert : Option (List ℕ)
  pub client_key : Option (List ℕ)
  pub domain_name : Option String

module _ {N : Type 0} where
  unfoldable pub string_value : String → Value N → GrpcResult (Option String)
  unfolding trim
  string_value name null = ok none
  string_value name (string s) =
      if is_empty (trim s)
      then err (connection ("tls: " ⧺ name ⧺ " must not be empty"))
      else ok (some s)
  string_value name (bool b) = err (connection ("tls: " ⧺ name ⧺ " must be a string"))
  string_value name (number n) = err (connection ("tls: " ⧺ name ⧺ " must be a string"))
  string_value name (array vs) = err (connection ("tls: " ⧺ name ⧺ " must be a string"))
  string_value name (object fs) = err (connection ("tls: " ⧺ name ⧺ " must be a string"))

  unfoldable pub parse_string_field : List (String × Value N) → String → GrpcResult (Option String)
  unfolding get string_value
  parse_string_field obj name = elim (get obj name) [
    | none ↦ ok none
    | some v ↦ string_value name v
  ]

  unfoldable pub parse_pem_field : List (String × Value N) → String → GrpcResult (Option (List ℕ))
  parse_pem_field obj name = do text ← parse_string_field obj name; ok (Option.map into_bytes text)

  -- The loop over the keys.
  unfoldable pub check_fields : List (String × Value N) → GrpcResult (Unit {0})
  unfolding contains join
  check_fields [] = ok tt
  check_fields ((key, v) ∷ obj) = do
    fail_if (not (contains accepted_fields key)) (
        connection
          ("tls: unknown key '" ⧺ key ⧺ "' (accepted fields: " ⧺ join ", " accepted_fields ⧺ ")"))
    check_fields obj

-- A client certificate and its key come together.
unfoldable pub check_pair : Option (List ℕ) → Option (List ℕ) → GrpcResult (Unit {0})
check_pair (some cert) none = err (connection "tls: client_cert requires client_key")
check_pair none (some key) = err (connection "tls: client_key requires client_cert")
check_pair none none = ok tt
check_pair (some cert) (some key) = ok tt

abbrev pub not_an_object : GrpcResult TlsConfig
not_an_object =
    err (
      connection ("tls must be a JSON object (accepted fields: " ⧺ join ", " accepted_fields ⧺ ")"))

module _ {N : Type 0} where
  unfoldable pub parse_object : List (String × Value N) → GrpcResult TlsConfig
  parse_object obj = do
    check_fields obj
    ca_cert ← parse_pem_field obj "ca_cert"
    client_cert ← parse_pem_field obj "client_cert"
    client_key ← parse_pem_field obj "client_key"
    domain_name ← parse_string_field obj "domain_name"
    check_pair client_cert client_key
    ok (record {
      ca_cert = ca_cert;
      client_cert = client_cert;
      client_key = client_key;
      domain_name = domain_name;
    })

  unfoldable pub parse : Value N → GrpcResult TlsConfig
  unfolding parse_object check_fields parse_pem_field into_bytes parse_string_field check_pair join
  parse (object fs) = parse_object (entries fs)
  parse null = not_an_object
  parse (bool b) = not_an_object
  parse (number n) = not_an_object
  parse (string s) = not_an_object
  parse (array vs) = not_an_object
