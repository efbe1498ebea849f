-- ===== src/Json.antt =====
-- The JSON values that the program receives: `serde_json::Value` as its documentation gives it. The
-- numbers are a parameter, with what `as_i64` and `Value::to_string` are documented to do. An
-- object is the list of its entries in the order in which the library's map yields them.
pub mod Sample
use pg_grpc.Common.{
  ◌^◌, ◌<◌, ◌≡◌, ℤ, pos, negsuc, String, Bool, Option, none, some, List, [], ◌∷◌, ◌==◌,
  if◌then◌else◌, string_eq,
}

mutual
  pub data Value (N : Type 0) : Type 0 where
    null : Value N
    bool : Bool → Value N
    number : N → Value N
    string : String → Value N
    array : Items N → Value N
    object : Fields N → Value N

  pub data Items (N : Type 0) : Type 0 where
    nil : Items N
    cons : Value N → Items N → Items N

  pub data Fields (N : Type 0) : Type 0 where
    end : Fields N
    field : String → Value N → Fields N → Fields N

-- A value that an `i64` holds.
abbrev pub IsI64 : ℤ → Type 0
IsI64 (pos n) = n < 2 ^ 63
IsI64 (negsuc n) = n < 2 ^ 63

-- What the program uses of serde_json's numbers and printer.
pub record Numbers : Type 1 where
  pub N : Type 0
  pub num_i64 : N → Option ℤ
  pub num_i64-IsI64 : (n : N) (z : ℤ) → num_i64 n ≡ some z → IsI64 z
  pub value_to_string : Value N → String

module _ {N : Type 0} where
  abbrev pub items : Items N → List (Value N)
  items nil = []
  items (cons v vs) = v ∷ items vs

  abbrev pub entries : Fields N → List (String × Value N)
  entries end = []
  entries (field k v fs) = (k, v) ∷ entries fs

  unfoldable pub get : List (String × Value N) → String → Option (Value N)
  get [] key = none
  get ((k, v) ∷ fs) key = if k == key then some v else get fs key

  abbrev pub as_bool : Value N → Option Bool
  as_bool (bool b) = some b
  as_bool null = none
  as_bool (number n) = none
  as_bool (string s) = none
  as_bool (array vs) = none
  as_bool (object fs) = none

-- `Value::as_i64`.
abbrev pub as_i64 : (ns : Numbers) → Value ns.N → Option ℤ
as_i64 ns (number n) = ns.num_i64 n
as_i64 ns null = none
as_i64 ns (bool b) = none
as_i64 ns (string s) = none
as_i64 ns (array vs) = none
as_i64 ns (object fs) = none

-- What `as_i64` returns fits an `i64`.
pub as_i64-IsI64 : (ns : Numbers) (v : Value ns.N) (z : ℤ) → as_i64 ns v ≡ some z → IsI64 z
as_i64-IsI64 ns (number n) z h = ns.num_i64-IsI64 n z h
as_i64-IsI64 ns v z h = cc
