-- ===== src/Options/Bounds.antt =====
-- The ranges of accepted options, and the refusal of unknown keys.
use mathlib.Core.List.{List, [], ◌∷◌, ◌++◌}
use pg_grpc.Common.{
  ℕ, ◌^◌, ◌≤◌, ◌<◌, ◌≡◌, inl, inr, String, Option, none, some, pos, ok, err, arith, All, contains,
  Bool-cases, string_eq,
}
use pg_grpc.Text.{◌⧺◌, join}
use pg_grpc.Errors.{connection}
use pg_grpc.Json.{Numbers, Value, null, object, Fields, entries, as_i64-IsI64}
use pg_grpc.Options.{OptionsConfig, accepted_keys, check_keys, parse}
use pg_grpc.Options.Entries.{Optional, IsSize, IsPositive, IsKey, IsKey_iff}
use pg_grpc.Options.Laws.{IsOptionsValue, parse_options_iff}

-- A setting that is not given, or that lies from 1 to below `limit`.
abbrev pub InRange : ℕ → Option ℕ → Type 0
InRange limit none = Unit
InRange limit (some n) = (1 ≤ n) × (n < limit)

module _ (ns : Numbers) where
  positive-InRange :
      (o : Option (Value ns.N)) (r : Option ℕ) → Optional (IsPositive ns) o r → InRange (2 ^ 63) r
  positive-InRange none none h = tt
  positive-InRange (some v) none h = tt
  positive-InRange none (some n) h = absurd h
  positive-InRange (some v) (some n) (e, h) = (h, as_i64-IsI64 ns v (pos n) e)

  size-InRange :
      (o : Option (Value ns.N)) (r : Option ℕ) → Optional (IsSize ns) o r → InRange (2 ^ 32) r
  size-InRange none none h = tt
  size-InRange (some v) none h = tt
  size-InRange none (some n) h = absurd h
  size-InRange (some v) (some n) (e, lo, hi) = (lo, omega arith)

  -- Accepted options are within their ranges: the timeout is positive and fits an `i64`, and each
  -- size is positive and fits a `u32`.
  pub parse-InRange :
      (v : Value ns.N) (cfg : OptionsConfig)
      → parse ns v ≡ ok cfg
      → InRange (2 ^ 63) cfg.timeout_ms
        × InRange (2 ^ 32) cfg.max_decode_message_size_bytes
        × InRange (2 ^ 32) cfg.max_encode_message_size_bytes
  parse-InRange v cfg h = go v ((parse_options_iff ns v cfg).0 h)
    where
      go :
          (v : Value ns.N)
          → IsOptionsValue ns v cfg
          → InRange (2 ^ 63) cfg.timeout_ms
            × InRange (2 ^ 32) cfg.max_decode_message_size_bytes
            × InRange (2 ^ 32) cfg.max_encode_message_size_bytes
      go null e = rw e (tt, tt, tt)
      go (object fs) o =
          (positive-InRange _ _ o.timeout, size-InRange _ _ o.decode, size-InRange _ _ o.encode)
      go v h = absurd h

  check_keys_unknown :
      (before after : List (String × Value ns.N)) (key : String) (v : Value ns.N)
      → All (λ e. IsKey e.0) before
      → ¬ IsKey key
      → check_keys (before ++ (key, v) ∷ after)
        ≡ err (
            connection (
              "options: unknown key '"
              ⧺ key
              ⧺ "' (accepted keys: "
              ⧺ join ", " accepted_keys
              ⧺ ")"))
  unfolding check_keys
  check_keys_unknown [] after key v h n = elim (Bool-cases (contains accepted_keys key)) [
    | inl found ↦ absurd (n ((IsKey_iff key).0 found))
    | inr unknown ↦ rw unknown
  ]
  check_keys_unknown ((k, w) ∷ before) after key v h n =
      rw ((IsKey_iff k).1 h.0) (check_keys_unknown before after key v h.1 n)

  -- The first key that is none of the five is refused by its name, whatever the values of the
  -- entries are.
  pub parse_unknown_key :
      (fs : Fields ns.N) (before after : List (String × Value ns.N)) (key : String) (v : Value ns.N)
      → entries fs ≡ before ++ (key, v) ∷ after
      → All (λ e. IsKey e.0) before
      → ¬ IsKey key
      → parse ns (object fs)
        ≡ err (
            connection (
              "options: unknown key '"
              ⧺ key
              ⧺ "' (accepted keys: "
              ⧺ join ", " accepted_keys
              ⧺ ")"))
  unfolding parse
  parse_unknown_key fs before after key v e h n = rw (e, check_keys_unknown before after key v h n)
