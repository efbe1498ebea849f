-- ===== src/Options/Entries.antt =====
-- The entries of an options object: what each parser of src/options.rs accepts, key by key.
use text.Mathlib.TextEquality.{eq_iff}
use pg_grpc.Common.{
  ℕ, ◌≤◌, ◌≡◌, ◌↔◌, ◌⊎◌, refl, ◌∙◌, String, Bool, true, ℤ, pos, negsuc, arith, Option, none, some,
  List, [], ◌∷◌, >>=-eq-ok, ok, All, contains, string_eq,
}
use pg_grpc.Errors.{GrpcResult}
use pg_grpc.Json.{Numbers, IsI64, Value, null, bool, object, as_i64, as_i64-IsI64}
use pg_grpc.Tls
use pg_grpc.Tls.{TlsConfig}
use pg_grpc.Tls.Laws.{IsTlsValue, parse_tls_iff}
use pg_grpc.Options.{
  accepted_keys, u32_max, check_size, check_positive, parse_size_u32, parse_positive_u64,
  parse_bool, parse_tls, if_given, tls_if_given, check_keys,
}

abbrev pub IsKey : String → Type 0
IsKey key =
    (key ≡ "timeout_ms")
    ⊎ (key ≡ "use_reflection")
    ⊎ (key ≡ "tls")
    ⊎ (key ≡ "max_decode_message_size_bytes")
    ⊎ (key ≡ "max_encode_message_size_bytes")

pub IsKey_iff : (key : String) → (contains accepted_keys key ≡ true) ↔ IsKey key
unfolding contains
IsKey_iff key = ground (
  arith,
  eq_iff "timeout_ms" key,
  eq_iff "use_reflection" key,
  eq_iff "tls" key,
  eq_iff "max_decode_message_size_bytes" key,
  eq_iff "max_encode_message_size_bytes" key,
)

pub check_keys_iff :
    {N : Type 0} (obj : List (String × Value N))
    → (check_keys obj ≡ ok tt) ↔ All (λ e. IsKey e.0) obj
unfolding check_keys
check_keys_iff [] = ground arith
check_keys_iff ((key, v) ∷ obj) = ground (arith, check_keys_iff obj, IsKey_iff key)

-- An entry that is missing, or that stands for a value by `P`.
abbrev pub Optional : {V A : Type 0} → (V → A → Type 0) → Option V → Option A → Type 0
Optional P none none = Unit
Optional P none (some a) = ⊥
Optional P (some v) none = ⊥
Optional P (some v) (some a) = P v a

pub if_given_iff :
    {N A : Type 0} (P : Value N → A → Type 0) (read : Value N → GrpcResult A)
    → ((v : Value N) (a : A) → (read v ≡ ok a) ↔ P v a)
    → (o : Option (Value N)) (r : Option A) → (if_given o read ≡ ok r) ↔ Optional P o r
if_given_iff P read lem none none = ground arith
if_given_iff P read lem none (some a) = ground arith
if_given_iff P read lem (some v) none =
    (λ e. let (a, h, k) = >>=-eq-ok (read v) _ e in cc, λ h. absurd h)
if_given_iff P read lem (some v) (some a) =
    (λ e. let (b, h, k) = >>=-eq-ok (read v) _ e in (lem v a).0 (h ∙ cc), λ p. rw ((lem v a).1 p))

-- A JSON number that is the integer `n`, in a range.
abbrev pub IsInteger : (ns : Numbers) → Value ns.N → ℕ → Type 0
IsInteger ns v n = as_i64 ns v ≡ some (pos n)

abbrev pub IsSize : (ns : Numbers) → Value ns.N → ℕ → Type 0
IsSize ns v n = IsInteger ns v n × (1 ≤ n) × (n ≤ u32_max)

abbrev pub IsPositive : (ns : Numbers) → Value ns.N → ℕ → Type 0
IsPositive ns v n = IsInteger ns v n × (1 ≤ n)

abbrev pub IsBool : {N : Type 0} → Value N → Bool → Type 0
IsBool v b = v ≡ bool b

abbrev pub IsTlsOption : {N : Type 0} → Option (Value N) → Option TlsConfig → Type 0
IsTlsOption none r = r ≡ none
IsTlsOption (some null) r = r ≡ none
IsTlsOption (some v) none = ⊥
IsTlsOption (some v) (some cfg) = IsTlsValue v cfg

check_size_iff :
    (key : String) (z : ℤ) (n : ℕ)
    → (check_size key z ≡ ok n) ↔ ((z ≡ pos n) × (1 ≤ n) × (n ≤ u32_max))
unfolding check_size
check_size_iff key (pos m) n = ground arith
check_size_iff key (negsuc m) n = ground arith

check_positive_iff :
    (key : String) (z : ℤ) (n : ℕ)
    → IsI64 z
    → (check_positive key z ≡ ok n) ↔ ((z ≡ pos n) × (1 ≤ n))
unfolding check_positive
check_positive_iff key (pos m) n h = ground arith
check_positive_iff key (negsuc m) n h = ground arith

pub parse_bool_iff :
    {N : Type 0} (key : String) (v : Value N) (b : Bool) → (parse_bool key v ≡ ok b) ↔ IsBool v b
unfolding parse_bool
parse_bool_iff key (bool c) b = ground arith
parse_bool_iff key v b = ground arith

pub tls_if_given_iff :
    {N : Type 0} (o : Option (Value N)) (r : Option TlsConfig)
    → (tls_if_given o ≡ ok r) ↔ IsTlsOption o r
unfolding parse_tls
tls_if_given_iff none r = ground arith
tls_if_given_iff (some null) r = ground arith
tls_if_given_iff (some (object fs)) none =
    (λ e. let (c, h, k) = >>=-eq-ok (Tls.parse (object fs)) _ e in cc, λ h. absurd h)
tls_if_given_iff (some (object fs)) (some cfg) = (
  λ e.
      let (c, h, k) = >>=-eq-ok (Tls.parse (object fs)) _ e in
      (parse_tls_iff (object fs) cfg).0 (h ∙ cc),
  λ t. rw ((parse_tls_iff (object fs) cfg).1 t),
)
tls_if_given_iff (some (bool b)) (some cfg) = ground arith
tls_if_given_iff (some v) r = ground arith

module _ (ns : Numbers) where
  pub parse_size_u32_iff :
      (key : String) (v : Value ns.N) (n : ℕ) → (parse_size_u32 ns key v ≡ ok n) ↔ IsSize ns v n
  unfolding parse_size_u32
  parse_size_u32_iff key v n = go (as_i64 ns v) refl
    where
      go :
          (o : Option ℤ)
          → as_i64 ns v ≡ o
          → (parse_size_u32 ns key v ≡ ok n) ↔ ((o ≡ some (pos n)) × (1 ≤ n) × (n ≤ u32_max))
      go none e = rw (e, parse_size_u32) (ground arith)
      go (some z) e = rw (e, parse_size_u32) (ground (arith, check_size_iff key z n))

  pub parse_positive_u64_iff :
      (key : String) (v : Value ns.N) (n : ℕ)
      → (parse_positive_u64 ns key v ≡ ok n) ↔ IsPositive ns v n
  unfolding parse_positive_u64
  parse_positive_u64_iff key v n = go (as_i64 ns v) refl
    where
      go :
          (o : Option ℤ)
          → as_i64 ns v ≡ o
          → (parse_positive_u64 ns key v ≡ ok n) ↔ ((o ≡ some (pos n)) × (1 ≤ n))
      go none e = rw (e, parse_positive_u64) (ground arith)
      go (some z) e =
          rw (e, parse_positive_u64)
            (ground (arith, check_positive_iff key z n (as_i64-IsI64 ns v z e)))
