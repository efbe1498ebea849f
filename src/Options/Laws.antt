-- ===== src/Options/Laws.antt =====
-- Which values src/options.rs accepts, and as which options.
use pg_grpc.Common.{
  ℕ, ◌≡◌, ◌↔◌, String, Bool, arith, Option, List, >>=-eq-ok, ok-injective, subst, ok, All,
  string_eq,
}
use pg_grpc.Json.{Numbers, Value, null, bool, number, string, array, object, entries, get}
use pg_grpc.Options.{
  OptionsConfig, default, parse_size_u32, parse_positive_u64, parse_bool, if_given, tls_if_given,
  check_keys, parse_object, parse,
}
use pg_grpc.Options.Entries.{
  IsKey, check_keys_iff, Optional, if_given_iff, IsSize, IsPositive, IsBool, IsTlsOption,
  parse_bool_iff, tls_if_given_iff, parse_size_u32_iff, parse_positive_u64_iff,
}

module _ (ns : Numbers) where
  -- The options that an object stands for: no key but the five; a timeout is a positive integer, a
  -- size one that fits a `u32`, the reflection flag a Boolean, and `tls` null or TLS settings.
  pub record IsOptions (obj : List (String × Value ns.N)) (cfg : OptionsConfig) : Type 0 where
    pub known : All (λ e. IsKey e.0) obj
    pub timeout : Optional (IsPositive ns) (get obj "timeout_ms") cfg.timeout_ms
    pub reflection : Optional IsBool (get obj "use_reflection") cfg.use_reflection
    pub tls : IsTlsOption (get obj "tls") cfg.tls
    pub decode :
        Optional
          (IsSize ns)
          (get obj "max_decode_message_size_bytes")
          cfg.max_decode_message_size_bytes
    pub encode :
        Optional
          (IsSize ns)
          (get obj "max_encode_message_size_bytes")
          cfg.max_encode_message_size_bytes

  module _ (obj : List (String × Value ns.N)) where
    timeout_iff :
        (r : Option ℕ)
        → (if_given (get obj "timeout_ms") (parse_positive_u64 ns "timeout_ms") ≡ ok r)
          ↔ Optional (IsPositive ns) (get obj "timeout_ms") r
    timeout_iff = if_given_iff (IsPositive ns) _ (parse_positive_u64_iff ns "timeout_ms") _

    reflection_iff :
        (r : Option Bool)
        → (if_given (get obj "use_reflection") (parse_bool "use_reflection") ≡ ok r)
          ↔ Optional IsBool (get obj "use_reflection") r
    reflection_iff = if_given_iff IsBool _ (parse_bool_iff "use_reflection") _

    bytes_iff :
        (key : String) (r : Option ℕ)
        → (if_given (get obj key) (parse_size_u32 ns key) ≡ ok r)
          ↔ Optional (IsSize ns) (get obj key) r
    bytes_iff key = if_given_iff (IsSize ns) _ (parse_size_u32_iff ns key) _

    parse_object_sound : (cfg : OptionsConfig) → parse_object ns obj ≡ ok cfg → IsOptions obj cfg
    unfolding parse_object
    parse_object_sound cfg h =
        let (u, known, h1) = >>=-eq-ok (check_keys obj) _ h in
        let (t, e1, h2) = >>=-eq-ok (if_given (get obj "timeout_ms") _) _ h1 in
        let (f, e2, h3) = >>=-eq-ok (if_given (get obj "use_reflection") _) _ h2 in
        let (s, e3, h4) = >>=-eq-ok (tls_if_given (get obj "tls")) _ h3 in
        let (d, e4, h5) = >>=-eq-ok (if_given (get obj "max_decode_message_size_bytes") _) _ h4 in
        let (n, e5, h6) = >>=-eq-ok (if_given (get obj "max_encode_message_size_bytes") _) _ h5 in
        subst (IsOptions obj) (ok-injective h6) (record {
          known = (check_keys_iff obj).0 known;
          timeout = (timeout_iff t).0 e1;
          reflection = (reflection_iff f).0 e2;
          tls = (tls_if_given_iff _ s).0 e3;
          decode = (bytes_iff "max_decode_message_size_bytes" d).0 e4;
          encode = (bytes_iff "max_encode_message_size_bytes" n).0 e5;
        })

    parse_object_complete : (cfg : OptionsConfig) → IsOptions obj cfg → parse_object ns obj ≡ ok cfg
    unfolding parse_object
    parse_object_complete cfg o = rw (
      (check_keys_iff obj).1 o.known,
      (timeout_iff _).1 o.timeout,
      (reflection_iff _).1 o.reflection,
      (tls_if_given_iff _ _).1 o.tls,
      (bytes_iff _ _).1 o.decode,
      (bytes_iff _ _).1 o.encode,
    )

  abbrev pub IsOptionsValue : Value ns.N → OptionsConfig → Type 0
  IsOptionsValue null cfg = cfg ≡ default
  IsOptionsValue (object fs) cfg = IsOptions (entries fs) cfg
  IsOptionsValue (bool b) cfg = ⊥
  IsOptionsValue (number n) cfg = ⊥
  IsOptionsValue (string s) cfg = ⊥
  IsOptionsValue (array vs) cfg = ⊥

  -- A value is accepted exactly as the options that it stands for: null as the defaults, and an
  -- object with no key but the five whose entries are well formed and within their ranges.
  pub parse_options_iff :
      (v : Value ns.N) (cfg : OptionsConfig) → (parse ns v ≡ ok cfg) ↔ IsOptionsValue v cfg
  unfolding parse
  parse_options_iff null cfg = ground arith
  parse_options_iff (object fs) cfg =
      (parse_object_sound (entries fs) cfg, parse_object_complete (entries fs) cfg)
  parse_options_iff (bool b) cfg = ground arith
  parse_options_iff (number n) cfg = ground arith
  parse_options_iff (string s) cfg = ground arith
  parse_options_iff (array vs) cfg = ground arith
