-- ===== src/Json/Sample.antt =====
-- Numbers for concrete runs: the integers of a `u64`, of which `as_i64` reads those below 2^63.
use pg_grpc.Common.{ℕ, ◌^◌, ◌≡◌, ℤ, pos, Option, none, some, arith, ltb, if◌then◌else◌}
use pg_grpc.Json.{Numbers, IsI64}

abbrev pub small_i64 : ℕ → Option ℤ
small_i64 n = if ltb n (2 ^ 63) then some (pos n) else none

pub small_i64-IsI64 : (n : ℕ) (z : ℤ) → small_i64 n ≡ some z → IsI64 z
small_i64-IsI64 n z h = ground arith

abbrev pub sample_numbers : Numbers
sample_numbers = record {
  N = ℕ;
  num_i64 = small_i64;
  num_i64-IsI64 = small_i64-IsI64;
  value_to_string = λ v. "json";
}
