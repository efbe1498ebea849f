-- ===== src/Call/Metadata/Tests.antt =====
-- Runs of `apply_metadata`, and its theorem at a concrete input.
use pg_grpc.Common.{◌≡◌, ◌↔◌, refl, String, some, ok, err, [], ◌∷◌, ◌++◌, if◌then◌else◌}
use pg_grpc.Text.{contains_char}
use pg_grpc.Errors.{call}
use pg_grpc.Json.{null, number, string, array, object, nil, cons, end, field}
use pg_grpc.Json.Sample.{sample_numbers}
use pg_grpc.Call.Metadata.{
  MetadataCodec, MetadataMap, to_ascii_lowercase, item_text, value_items, append_text, append_items,
  append_entries, apply_metadata,
}
use pg_grpc.Call.Metadata.Laws.{IsMetadata, apply_metadata_iff}

-- A codec that refuses keys with a space.
abbrev pub codec : MetadataCodec
codec = record {
  MetaKey = String;
  MetaValue = String;
  key_from_bytes = λ s. if contains_char b' ' s then err "invalid" else ok s;
  value_try_from = λ s. ok s;
}

abbrev headers : MetadataMap sample_numbers codec
headers = ("x-id", "a") ∷ ("x-id", "b") ∷ ("n", "json") ∷ []

applies :
    apply_metadata sample_numbers codec [] (
      some (
        object (
          field "X-Id"
            (array (cons (string "a") (cons null (cons (string "b") nil))))
            (field "n" (number 1) (field "none" null end)))))
    ≡ ok headers
unfolding apply_metadata append_entries append_items append_text item_text value_items
    to_ascii_lowercase contains_char
applies = refl

refuses_key :
    apply_metadata sample_numbers codec [] (some (object (field "a b" null end)))
    ≡ err (call "metadata key 'a b': invalid")
unfolding apply_metadata append_entries to_ascii_lowercase contains_char
refuses_key = refl

refuses_array :
    apply_metadata sample_numbers codec [] (some (array nil))
    ≡ err (call "metadata must be a JSON object")
unfolding apply_metadata
refuses_array = refl

apply_metadata_iff_example :
    (apply_metadata sample_numbers codec [] (some (object (field "n" (number 1) end)))
      ≡ ok (("n", "json") ∷ []))
    ↔ ((hs : MetadataMap sample_numbers codec) × IsMetadata sample_numbers codec
          (some (object (field "n" (number 1) end)))
          hs
        × (("n", "json") ∷ [] ≡ [] ++ hs))
apply_metadata_iff_example =
    apply_metadata_iff sample_numbers codec [] (("n", "json") ∷ [])
      (some (object (field "n" (number 1) end)))
