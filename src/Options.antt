-- ===== src/Options.antt =====
-- src/options.rs: the options of a call, read from their JSON value.
pub mod Entries
pub mod Laws
pub mod Bounds
mod Tests
use pg_grpc.Common.{
  ℕ, ◌^◌, ◌-◌, ◌%◌, ℤ, pos, negsuc, String, Bool, true, false, Option, none, some, List, [], ◌∷◌,
  ok, err, ◌>>=◌, ◌>>◌, ok_or, contains, not, fail_if, string_eq, ltb,
}
use pg_grpc.Text.{◌⧺◌, join, display, display_int, trim, into_bytes}
use pg_grpc.Errors.{GrpcResult, connection}
use pg_grpc.Json.{
  Numbers, Value, null, bool, number, string, array, object, entries, get, as_bool, as_i64,
}
use pg_grpc.Tls
use pg_grpc.Tls.{TlsConfig}

abbrev pub accepted_keys : List String
accepted_keys =
    "timeout_ms" ∷ "use_reflection" ∷ "tls" ∷ "max_decode_message_size_bytes"
    ∷ "max_encode_message_size_bytes" ∷ []

pub record OptionsConfig : Type 0 where
  pub timeout_ms : Option ℕ
  pub use_reflection : Option Bool
  pub tls : Option TlsConfig
  pub max_decode_message_size_bytes : Option ℕ
  pub max_encode_message_size_bytes : Option ℕ

-- `Self::default()`.
abbrev pub default : OptionsConfig
default = record {
  timeout_ms = none;
  use_reflection = none;
  tls = none;
  max_decode_message_size_bytes = none;
  max_encode_message_size_bytes = none;
}

abbrev pub u32_max : ℕ
u32_max = 4294967295

-- `n < k` and `k < n` for an `i64` and a constant that is no negative number.
abbrev pub below : ℤ → ℕ → Bool
below (pos n) k = ltb n k
below (negsuc n) k = true

abbrev pub above : ℤ → ℕ → Bool
above (pos n) k = ltb k n
above (negsuc n) k = false

-- `n as u32` and `n as u64`: the low bits of the two's complement.
abbrev pub as_unsigned : ℕ → ℤ → ℕ
as_unsigned w (pos n) = n % 2 ^ w
as_unsigned w (negsuc n) = 2 ^ w - 1 - n % 2 ^ w

abbrev pub size_range_error : String → ℤ → GrpcResult ℕ
size_range_error key n = err (
    connection
      ("options." ⧺ key ⧺ " must be in [1, " ⧺ display u32_max ⧺ "] (got " ⧺ display_int n ⧺ ")"))

-- The range tests and the cast of `parse_size_u32`.
unfoldable pub check_size : String → ℤ → GrpcResult ℕ
check_size key n = elim (below n 1) [
  | true ↦ size_range_error key n
  | false ↦ elim (above n u32_max) [ true ↦ size_range_error key n | false ↦ ok (as_unsigned 32 n) ]
]

-- The range test and the cast of `parse_positive_u64`.
unfoldable pub check_positive : String → ℤ → GrpcResult ℕ
check_positive key n = elim (below n 1) [
  | true ↦ err (connection ("options." ⧺ key ⧺ " must be >= 1 (got " ⧺ display_int n ⧺ ")"))
  | false ↦ ok (as_unsigned 64 n)
]

module _ (ns : Numbers) where
  abbrev pub integer : String → Value ns.N → GrpcResult ℤ
  integer key v = ok_or (as_i64 ns v) (connection ("options." ⧺ key ⧺ " must be an integer"))

  unfoldable pub parse_size_u32 : String → Value ns.N → GrpcResult ℕ
  parse_size_u32 key v = do n ← integer key v; check_size key n

  unfoldable pub parse_positive_u64 : String → Value ns.N → GrpcResult ℕ
  parse_positive_u64 key v = do n ← integer key v; check_positive key n

unfoldable pub parse_bool : {N : Type 0} → String → Value N → GrpcResult Bool
parse_bool key v = ok_or (as_bool v) (connection ("options." ⧺ key ⧺ " must be a boolean"))

-- The `tls` entry.
unfoldable pub parse_tls : {N : Type 0} → Value N → GrpcResult (Option TlsConfig)
parse_tls null = ok none
parse_tls (object fs) = do cfg ← Tls.parse (object fs); ok (some cfg)
parse_tls (bool b) = err (connection "options.tls must be an object")
parse_tls (number n) = err (connection "options.tls must be an object")
parse_tls (string s) = err (connection "options.tls must be an object")
parse_tls (array vs) = err (connection "options.tls must be an object")

-- `if let Some(v) = obj.get(key) { cfg.field = Some(read(v)?) }`, from a field that is `None`.
abbrev pub if_given :
    {N A : Type 0} → Option (Value N) → (Value N → GrpcResult A) → GrpcResult (Option A)
if_given none read = ok none
if_given (some v) read = do a ← read v; ok (some a)

abbrev pub tls_if_given : {N : Type 0} → Option (Value N) → GrpcResult (Option TlsConfig)
tls_if_given none = ok none
tls_if_given (some v) = parse_tls v

-- The loop over the keys.
unfoldable pub check_keys : {N : Type 0} → List (String × Value N) → GrpcResult (Unit {0})
check_keys [] = ok tt
check_keys ((key, v) ∷ obj) = do
  fail_if (not (contains accepted_keys key)) (
      connection
        ("options: unknown key '" ⧺ key ⧺ "' (accepted keys: " ⧺ join ", " accepted_keys ⧺ ")"))
  check_keys obj

abbrev pub not_an_object : GrpcResult OptionsConfig
not_an_object =
    err (
      connection ("options must be a JSON object (accepted keys: " ⧺ join ", " accepted_keys ⧺ ")"))

module _ (ns : Numbers) where
  unfoldable pub parse_object : List (String × Value ns.N) → GrpcResult OptionsConfig
  parse_object obj = do
    check_keys obj
    timeout_ms ← if_given (get obj "timeout_ms") (parse_positive_u64 ns "timeout_ms")
    use_reflection ← if_given (get obj "use_reflection") (parse_bool "use_reflection")
    tls ← tls_if_given (get obj "tls")
    max_decode ←
        if_given (get obj "max_decode_message_size_bytes")
          (parse_size_u32 ns "max_decode_message_size_bytes")
    max_encode ←
        if_given (get obj "max_encode_message_size_bytes")
          (parse_size_u32 ns "max_encode_message_size_bytes")
    ok (record {
      timeout_ms = timeout_ms;
      use_reflection = use_reflection;
      tls = tls;
      max_decode_message_size_bytes = max_decode;
      max_encode_message_size_bytes = max_encode;
    })

  unfoldable pub parse : Value ns.N → GrpcResult OptionsConfig
  unfolding parse_object
  parse null = ok default
  parse (object fs) = parse_object (entries fs)
  parse (bool b) = not_an_object
  parse (number n) = not_an_object
  parse (string s) = not_an_object
  parse (array vs) = not_an_object
