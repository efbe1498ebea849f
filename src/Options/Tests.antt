-- ===== src/Options/Tests.antt =====
-- Runs of the options parser, and its theorems at concrete inputs.
use pg_grpc.Common.{ℕ, ◌^◌, ◌≡◌, ◌↔◌, refl, inl, inr, some, ok, err, arith, [], ◌∷◌, true, contains}
use text.Mathlib.TextEquality.{eq_iff}
use pg_grpc.Text.{◌⧺◌, join, display, display_int}
use pg_grpc.Errors.{connection}
use pg_grpc.Json.{number, bool, object, Fields, end, field, get}
use pg_grpc.Json.Sample.{sample_numbers}
use pg_grpc.Options.{
  OptionsConfig, default, accepted_keys, parse, check_keys, parse_positive_u64, check_positive,
  parse_size_u32, check_size, parse_tls,
}
use pg_grpc.Options.Entries.{IsKey}
use pg_grpc.Options.Laws.{IsOptionsValue, parse_options_iff}
use pg_grpc.Options.Bounds.{InRange, parse-InRange, parse_unknown_key}

abbrev given : Fields ℕ
given =
    field "max_decode_message_size_bytes" (number 4294967295) (field "timeout_ms" (number 500) end)

abbrev read : OptionsConfig
read = record default { timeout_ms = some 500; max_decode_message_size_bytes = some 4294967295 }

reads : parse sample_numbers (object given) ≡ ok read
unfolding parse check_keys contains get parse_positive_u64 check_positive parse_size_u32 check_size
reads = refl

refuses_large :
    parse sample_numbers (object (field "max_decode_message_size_bytes" (number 4294967296) end))
    ≡ err (
        connection
          "options.max_decode_message_size_bytes must be in [1, 4294967295] (got 4294967296)")
unfolding parse check_keys contains get parse_size_u32 check_size display display_int
refuses_large = refl

refuses_other_types :
    parse sample_numbers (object (field "tls" (bool true) end))
    ≡ err (connection "options.tls must be an object")
unfolding parse check_keys contains get parse_tls
refuses_other_types = refl

parse_options_iff_example :
    (parse sample_numbers (object given) ≡ ok read)
    ↔ IsOptionsValue sample_numbers (object given) read
parse_options_iff_example = parse_options_iff sample_numbers (object given) read

parse-InRange_example :
    InRange (2 ^ 63) read.timeout_ms
    × InRange (2 ^ 32) read.max_decode_message_size_bytes
    × InRange (2 ^ 32) read.max_encode_message_size_bytes
parse-InRange_example = parse-InRange sample_numbers (object given) read reads

abbrev misspelt : Fields ℕ
misspelt = field "tls" (bool true) (field "timeout" (number 1) end)

timeout_unknown : ¬ IsKey "timeout"
timeout_unknown h = ground (
  arith,
  eq_iff "timeout" "timeout_ms",
  eq_iff "timeout" "use_reflection",
  eq_iff "timeout" "tls",
  eq_iff "timeout" "max_decode_message_size_bytes",
  eq_iff "timeout" "max_encode_message_size_bytes",
)

parse_unknown_key_example :
    parse sample_numbers (object misspelt)
    ≡ err (
        connection (
          "options: unknown key '"
          ⧺ "timeout"
          ⧺ "' (accepted keys: "
          ⧺ join ", " accepted_keys
          ⧺ ")"))
parse_unknown_key_example =
    parse_unknown_key sample_numbers misspelt (("tls", bool true) ∷ []) [] "timeout" (number 1) refl
      (inr (inr (inl refl)), tt) timeout_unknown
