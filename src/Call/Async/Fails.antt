-- ===== src/Call/Async/Fails.antt =====
-- The errors of `call_async` of src/call.rs: whatever goes wrong in it, it does not report a timeout.
use pg_grpc.Common.{
  ℕ, String, Bool, true, false, Option, none, some, List, [], ◌∷◌, ok, err, string_eq, Result-cases,
  inl, inr,
}
use pg_grpc.Common.Keys.{option_eq, pair_eq}
use pg_grpc.Errors.{GrpcResult, connection, proto}
use pg_grpc.Errors.InTime.{InTime, InTime->>=, InTime-map_err}
use pg_grpc.Json.{Numbers, Value, null, bool, number, string, array, object, entries}
use pg_grpc.Endpoint.{validate_endpoint}
use pg_grpc.Endpoint.Laws.{Validates, blank, scheme, path, accepted, validate_endpoint-Validates}
use pg_grpc.Tls.Build.{TlsBuilder}
use pg_grpc.ChannelCache.{Transport, Channels, Key, tls_eq, builder_for, store}
use pg_grpc.Proto.{Descriptors, backfill_file, backfill_from, backfill_wkts}
use pg_grpc.Proto.Fetch.{Reflection, Status, v1, v1alpha, fetch, fall_back, fetch_pool}
use pg_grpc.Text.{◌⧺◌}
use pg_grpc.Call.Method.{parse_method}
use pg_grpc.Call.Method.Laws.{parse_method-err}
use pg_grpc.Call.Metadata.{
  MetadataCodec, MetadataMap, append_text, append_items, append_entries, apply_metadata, item_text,
  value_items,
}

Validates-InTime : (endpoint : String) (r : GrpcResult String) → Validates endpoint r → InTime r
Validates-InTime endpoint r (blank e) = tt
Validates-InTime endpoint r (scheme n e) = tt
Validates-InTime endpoint r (path n e f) = tt
Validates-InTime endpoint r (accepted n e) = tt

pub validate_endpoint-InTime : (endpoint : String) → InTime (validate_endpoint endpoint)
validate_endpoint-InTime endpoint =
    Validates-InTime endpoint (validate_endpoint endpoint) (validate_endpoint-Validates endpoint)

pub parse_method-InTime : (method : String) → InTime (parse_method method)
parse_method-InTime method = elim (Result-cases (parse_method method)) [
  | inl (a, e) ↦ rw (e) tt
  | inr (x, e) ↦ rw (e, parse_method-err method x e) tt
]

pub builder_for-InTime : {b : TlsBuilder} (t : Transport b) (key : Key) → InTime (builder_for t key)
unfolding builder_for
builder_for-InTime t (host, none) =
    InTime->>= _ _ (InTime-map_err connection (t.from_shared _) (λ e. tt)) (λ plain. tt)
builder_for-InTime t (host, some tls) =
    InTime->>= _ _ (InTime-map_err connection (t.from_shared _) (λ e. tt))
      (λ plain. InTime-map_err _ (t.tls_config plain _) (λ e. tt))

pub store-InTime :
    {b : TlsBuilder} (t : Transport b) (key : Key) (r : GrpcResult t.Channel)
    (channels : Channels t)
    → InTime r
    → InTime (store t key r channels).0
store-InTime t key (ok ch) channels h = tt
store-InTime t key (err e) channels h = h

module _ (d : Descriptors) where
  backfill_file-InTime :
      (b : Bool) (name : String) (fdp : d.FileDescriptorProto) (pool : d.DescriptorPool)
      → InTime (backfill_file d b name fdp pool)
  unfolding backfill_file
  backfill_file-InTime true name fdp pool = tt
  backfill_file-InTime false name fdp pool =
      InTime-map_err _ (d.add_file_descriptor_proto pool fdp) (λ e. tt)

  backfill_from-InTime :
      (files : List (String × d.FileDescriptorProto)) (pool : d.DescriptorPool)
      → InTime (backfill_from d files pool)
  unfolding backfill_from
  backfill_from-InTime [] pool = tt
  backfill_from-InTime ((name, fdp) ∷ files) pool =
      InTime->>= _ _ (backfill_file-InTime _ name fdp pool) (backfill_from-InTime files)

  pub fetch_pool-InTime :
      (r : Reflection d) (service : String) (max_decode max_encode : Option ℕ)
      → InTime (fetch_pool r service max_decode max_encode)
  unfolding fetch_pool backfill_wkts
  fetch_pool-InTime r service max_decode max_encode =
      InTime->>= _ _
        (InTime-map_err (λ (s : Status). proto ("reflection: " ⧺ s.message))
          (fall_back r (fetch r v1 service max_decode max_encode)
            (fetch r v1alpha service max_decode max_encode))
          (λ s. tt))
        (backfill_from-InTime d.global_files)

module _ (ns : Numbers) (tonic : MetadataCodec) where
  append_text-InTime :
      (key : String) (k : tonic.MetaKey) (md : MetadataMap ns tonic) (o : Option String)
      → InTime (append_text ns tonic key k md o)
  unfolding append_text
  append_text-InTime key k md none = tt
  append_text-InTime key k md (some s) =
      InTime->>= _ _ (InTime-map_err _ (tonic.value_try_from s) (λ e. tt)) (λ v. tt)

  append_items-InTime :
      (key : String) (k : tonic.MetaKey) (md : MetadataMap ns tonic) (vs : List (Value ns.N))
      → InTime (append_items ns tonic key k md vs)
  unfolding append_items
  append_items-InTime key k md [] = tt
  append_items-InTime key k md (v ∷ vs) =
      InTime->>= _ _ (append_text-InTime key k md (item_text ns tonic v))
        (λ next. append_items-InTime key k next vs)

  append_entries-InTime :
      (md : MetadataMap ns tonic) (obj : List (String × Value ns.N))
      → InTime (append_entries ns tonic md obj)
  unfolding append_entries
  append_entries-InTime md [] = tt
  append_entries-InTime md ((key, v) ∷ obj) =
      InTime->>= _ _ (InTime-map_err _ (tonic.key_from_bytes _) (λ e. tt)) (λ k.
        InTime->>= _ _ (append_items-InTime key k md (value_items ns tonic v))
          (λ next. append_entries-InTime next obj))

  pub apply_metadata-InTime :
      (md : MetadataMap ns tonic) (o : Option (Value ns.N)) → InTime (apply_metadata ns tonic md o)
  unfolding apply_metadata
  apply_metadata-InTime md none = tt
  apply_metadata-InTime md (some null) = tt
  apply_metadata-InTime md (some (object m)) = append_entries-InTime md (entries m)
  apply_metadata-InTime md (some (bool b)) = tt
  apply_metadata-InTime md (some (number n)) = tt
  apply_metadata-InTime md (some (string s)) = tt
  apply_metadata-InTime md (some (array vs)) = tt
