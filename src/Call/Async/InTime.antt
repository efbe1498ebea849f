-- ===== src/Call/Async/InTime.antt =====
-- No piece of `call_async` of src/call.rs ends the call with a timeout.
use pg_grpc.Common.{
  ℕ, String, Bool, true, false, Option, none, some, [], Result, ok, err, string_eq,
}
use pg_grpc.Common.Keys.{option_eq, pair_eq}
use pg_grpc.Errors.{GrpcResult, proto, call}
use pg_grpc.Errors.InTime.{InTime, InTime->>=, InTime-map_err, InTime-ok_or}
use pg_grpc.Json.{Value}
use pg_grpc.ChannelCache.{Channels, Key, tls_eq}
use pg_grpc.Call.Metadata.{MetadataMap}
use pg_grpc.Call.Network.{Bytes, Libraries}
use pg_grpc.Call.Codec.{raw_bytes_codec}
use pg_grpc.Call.Messages.{find_method, resolve_method, encode_request, decode_response}
use pg_grpc.Call.Async.{
  Request, Caches, Prepared, Stage, connecting, fetching, readying, calling, finished, prepare,
  ready_or_fail, find_pool, with_channel, connect_or_fail, use_channel, find_channel,
  find_method_path, begin, connected, fetched, call_or_fail, is_ready, resume,
}
use pg_grpc.Call.Async.Fails.{
  validate_endpoint-InTime, parse_method-InTime, builder_for-InTime, store-InTime,
  fetch_pool-InTime, apply_metadata-InTime,
}

module _ {lib : Libraries} where
  -- If the call has its result, that is no timeout.
  abbrev pub EndsInTime : Stage lib → Type 0
  EndsInTime (connecting s m key builder) = Unit
  EndsInTime (fetching s m channel) = Unit
  EndsInTime (readying p) = Unit
  EndsInTime (calling p md) = Unit
  EndsInTime (finished r) = InTime r

module _ (lib : Libraries) where
  resolve_method-InTime :
      (pool : lib.descriptors.DescriptorPool) (s m : String) → InTime (resolve_method lib pool s m)
  unfolding resolve_method
  resolve_method-InTime pool s m =
      InTime->>= _ _ (InTime-ok_or (lib.get_service_by_name pool s) _ tt)
        (λ svc. InTime-ok_or (find_method lib m (lib.methods svc)) _ tt)

  encode_request-InTime :
      (desc : lib.MessageDescriptor) (json : Value lib.numbers.N)
      → InTime (encode_request lib desc json)
  unfolding encode_request
  encode_request-InTime desc json =
      InTime->>= _ _ (InTime-map_err _ (lib.value_to_json json) (λ e. tt)) (λ text.
        InTime->>= _ _ (InTime-map_err _ (lib.deserialize desc text) (λ e. tt)) (λ msg. tt))

  decode_response-InTime :
      (desc : lib.MessageDescriptor) (bytes : Bytes) → InTime (decode_response lib desc bytes)
  unfolding decode_response
  decode_response-InTime desc bytes =
      InTime->>= _ _ (InTime-map_err _ (lib.decode desc bytes) (λ e. tt)) (λ msg.
        InTime->>= _ _ (InTime-map_err _ (lib.serialize_with_proto_field_names msg) (λ e. tt))
          (λ buf. InTime-map_err _ (lib.from_slice buf) (λ e. tt)))

module _ (lib : Libraries) (a : Request lib.numbers.N) where
  prepare-InTime :
      (s m : String) (channel : lib.transport.Channel) (pool : lib.descriptors.DescriptorPool)
      → InTime (prepare lib a s m channel pool)
  unfolding prepare
  prepare-InTime s m channel pool = InTime->>= _ _ (resolve_method-InTime lib pool s m) (λ desc.
      InTime->>= _ _ (encode_request-InTime lib (lib.input desc) a.request_json)
        (λ bytes. InTime->>= _ _ (InTime-map_err proto (lib.parse_path _) (λ e. tt)) (λ path. tt)))

  ready_or_fail-EndsInTime :
      (r : GrpcResult (Prepared lib)) → InTime r → EndsInTime (ready_or_fail lib a r)
  ready_or_fail-EndsInTime (ok p) h = tt
  ready_or_fail-EndsInTime (err e) h = h

  find_pool-EndsInTime :
      (s m : String) (channel : lib.transport.Channel) (o : Option lib.descriptors.DescriptorPool)
      (b : Bool)
      → EndsInTime (find_pool lib a s m channel o b)
  find_pool-EndsInTime s m channel (some pool) b =
      ready_or_fail-EndsInTime _ (prepare-InTime s m channel pool)
  find_pool-EndsInTime s m channel none true = tt
  find_pool-EndsInTime s m channel none false = tt

  with_channel-EndsInTime :
      (s m : String) (c : Caches lib) (channel : lib.transport.Channel)
      → EndsInTime (with_channel lib a s m c channel).1
  unfolding with_channel
  with_channel-EndsInTime s m c channel = find_pool-EndsInTime s m channel _ a.use_reflection

  connect_or_fail-EndsInTime :
      (s m : String) (key : Key) (r : GrpcResult lib.transport.Endpoint)
      → InTime r
      → EndsInTime (connect_or_fail lib a s m key r)
  connect_or_fail-EndsInTime s m key (ok builder) h = tt
  connect_or_fail-EndsInTime s m key (err e) h = h

  use_channel-EndsInTime :
      (s m : String) (key : Key) (c : Caches lib) (o : Option lib.transport.Channel)
      → EndsInTime (use_channel lib a s m key c o).1
  use_channel-EndsInTime s m key c (some channel) = with_channel-EndsInTime s m c channel
  use_channel-EndsInTime s m key c none =
      connect_or_fail-EndsInTime s m key _ (builder_for-InTime lib.transport key)

  find_channel-EndsInTime :
      (s m : String) (c : Caches lib) (r : GrpcResult String)
      → InTime r
      → EndsInTime (find_channel lib a s m c r).1
  find_channel-EndsInTime s m c (ok host) h = use_channel-EndsInTime s m (host, a.tls) c _
  find_channel-EndsInTime s m c (err e) h = h

  find_method_path-EndsInTime :
      (c : Caches lib) (r : GrpcResult (String × String))
      → InTime r
      → EndsInTime (find_method_path lib a c r).1
  find_method_path-EndsInTime c (ok (s, m)) h =
      find_channel-EndsInTime s m c _ (validate_endpoint-InTime a.endpoint)
  find_method_path-EndsInTime c (err e) h = h

  pub begin-EndsInTime : (c : Caches lib) → EndsInTime (begin lib a c).1
  unfolding begin
  begin-EndsInTime c = find_method_path-EndsInTime c _ (parse_method-InTime a.method)

  connected-EndsInTime :
      (s m : String) (c : Caches lib)
      (r : GrpcResult lib.transport.Channel × Channels lib.transport)
      → InTime r.0
      → EndsInTime (connected lib a s m c r).1
  connected-EndsInTime s m c (ok channel, channels) h = with_channel-EndsInTime s m _ channel
  connected-EndsInTime s m c (err e, channels) h = h

  fetched-EndsInTime :
      (s m : String) (channel : lib.transport.Channel) (c : Caches lib)
      (r : GrpcResult lib.descriptors.DescriptorPool)
      → InTime r
      → EndsInTime (fetched lib a s m channel c r).1
  fetched-EndsInTime s m channel c (ok pool) h =
      ready_or_fail-EndsInTime _ (prepare-InTime s m channel pool)
  fetched-EndsInTime s m channel c (err e) h = h

  call_or_fail-EndsInTime :
      (p : Prepared lib) (r : GrpcResult (MetadataMap lib.numbers lib.metadata))
      → InTime r
      → EndsInTime (call_or_fail lib a p r)
  call_or_fail-EndsInTime p (ok md) h = tt
  call_or_fail-EndsInTime p (err e) h = h

  is_ready-EndsInTime :
      (p : Prepared lib) (r : Result String (Unit {0})) → EndsInTime (is_ready lib a p r)
  is_ready-EndsInTime p (ok u) =
      call_or_fail-EndsInTime p _ (apply_metadata-InTime lib.numbers lib.metadata [] a.metadata)
  is_ready-EndsInTime p (err e) = tt

  pub resume-EndsInTime :
      (now : ℕ) (c : Caches lib) (st : Stage lib)
      → EndsInTime st
      → EndsInTime (resume lib a now c st).1
  unfolding resume
  resume-EndsInTime now c (connecting s m key builder) h = connected-EndsInTime s m c _ (
      store-InTime lib.transport key _ c.channels
        (InTime-map_err _ (lib.transport.connect now builder) (λ e. tt)))
  resume-EndsInTime now c (fetching s m channel) h =
      fetched-EndsInTime s m channel c _
        (fetch_pool-InTime lib.descriptors (lib.reflection now channel) s a.max_decode a.max_encode)
  resume-EndsInTime now c (readying p) h = is_ready-EndsInTime p (lib.ready now p.grpc)
  resume-EndsInTime now c (calling p md) h =
      InTime->>= _ _ (InTime-map_err call (lib.unary now _ _ md _ raw_bytes_codec) (λ e. tt))
        (decode_response-InTime lib (lib.output p.method_desc))
  resume-EndsInTime now c (finished r) h = h
