-- ===== src/Call/Metadata.antt =====
-- `apply_metadata` of src/call.rs: the headers of a request, from the JSON value of its metadata.
pub mod Headers
pub mod Laws
pub mod Tests
use pg_grpc.Common.{
  ℕ, zero, suc, ◌-◌, Char, code, String, Bool, ◌&&◌, Option, none, some, Result, List, [], ◌∷◌,
  ◌++◌, ok, err, ◌>>=◌, map_err, leb, if◌then◌else◌,
}
use Prim.Native.String
use pg_grpc.Text.{◌⧺◌}
use pg_grpc.Errors.{GrpcResult, call}
use pg_grpc.Json.{Numbers, Value, null, bool, number, string, array, object, items, entries}

-- tonic's metadata: which texts are keys and values. An error is its text.
pub record MetadataCodec : Type 1 where
  pub MetaKey : Type 0
  pub MetaValue : Type 0
  pub key_from_bytes : String → Result String MetaKey
  pub value_try_from : String → Result String MetaValue

-- The character at an index, or another one.
unfoldable pub char_at : String → ℕ → Char → Char
char_at String.[] n other = other
char_at (String.◌∷◌ c s) zero other = c
char_at (String.◌∷◌ c s) (suc n) other = char_at s n other

unfoldable pub lower_char : Char → Char
unfolding char_at
lower_char c =
    if leb 65 (code c) && leb (code c) 90
    then char_at "abcdefghijklmnopqrstuvwxyz" (code c - 65) c
    else c

-- `to_ascii_lowercase`.
unfoldable pub to_ascii_lowercase : String → String
unfolding lower_char
to_ascii_lowercase String.[] = String.[]
to_ascii_lowercase (String.◌∷◌ c s) = String.◌∷◌ (lower_char c) (to_ascii_lowercase s)

module _ (ns : Numbers) (tonic : MetadataCodec) where
  -- The request's metadata: a key may stand several times.
  abbrev pub MetadataMap : Type 0
  MetadataMap = List (tonic.MetaKey × tonic.MetaValue)

  -- The text of an item, or nothing if it is skipped.
  unfoldable pub item_text : Value ns.N → Option String
  item_text null = none
  item_text (string s) = some s
  item_text (bool b) = some (ns.value_to_string (bool b))
  item_text (number n) = some (ns.value_to_string (number n))
  item_text (array vs) = some (ns.value_to_string (array vs))
  item_text (object fs) = some (ns.value_to_string (object fs))

  -- The items of a value: those of an array, or the value itself.
  unfoldable pub value_items : Value ns.N → List (Value ns.N)
  value_items (array vs) = items vs
  value_items null = null ∷ []
  value_items (string s) = string s ∷ []
  value_items (bool b) = bool b ∷ []
  value_items (number n) = number n ∷ []
  value_items (object fs) = object fs ∷ []

  -- One round of the inner loop.
  unfoldable pub append_text :
      String → tonic.MetaKey → MetadataMap → Option String → GrpcResult MetadataMap
  append_text key meta_key md none = ok md
  append_text key meta_key md (some s) = do
    v ← map_err (λ e. call ("metadata '" ⧺ key ⧺ "': " ⧺ e)) (tonic.value_try_from s)
    ok (md ++ (meta_key, v) ∷ [])

  unfoldable pub append_items :
      String → tonic.MetaKey → MetadataMap → List (Value ns.N) → GrpcResult MetadataMap
  append_items key meta_key md [] = ok md
  append_items key meta_key md (item ∷ rest) = do
    next ← append_text key meta_key md (item_text item)
    append_items key meta_key next rest

  -- The loop over the entries.
  unfoldable pub append_entries : MetadataMap → List (String × Value ns.N) → GrpcResult MetadataMap
  append_entries md [] = ok md
  append_entries md ((key, val) ∷ obj) = do
    meta_key ←
        map_err (λ e. call ("metadata key '" ⧺ key ⧺ "': " ⧺ e))
          (tonic.key_from_bytes (to_ascii_lowercase key))
    next ← append_items key meta_key md (value_items val)
    append_entries next obj

  abbrev not_an_object : GrpcResult MetadataMap
  not_an_object = err (call "metadata must be a JSON object")

  unfoldable pub apply_metadata : MetadataMap → Option (Value ns.N) → GrpcResult MetadataMap
  apply_metadata md none = ok md
  apply_metadata md (some null) = ok md
  apply_metadata md (some (object m)) = append_entries md (entries m)
  apply_metadata md (some (bool b)) = not_an_object
  apply_metadata md (some (number n)) = not_an_object
  apply_metadata md (some (string s)) = not_an_object
  apply_metadata md (some (array vs)) = not_an_object
