-- ===== src/Call/Async.antt =====
-- `call_async` of src/call.rs, cut at its `.await`s: what runs from one wait to the next is one
-- function, from the caches and the reply that has come to the caches and the next wait. Other tasks
-- may run at each wait.
pub mod Connects
pub mod Fails
pub mod InTime
pub mod Finds
pub mod Steps
pub mod Resumes
use pg_grpc.Common.{
  ℕ, String, Bool, true, false, Option, none, some, List, [], Result, ok, err, ◌>>=◌, map_err,
  string_eq,
}
use pg_grpc.Common.Keys.{option_eq, pair_eq}
use pg_grpc.Text.{◌⧺◌}
use pg_grpc.Errors.{GrpcResult, connection, proto, call}
use pg_grpc.HashMap
use pg_grpc.Json.{Value}
use pg_grpc.Tls.{TlsConfig}
use pg_grpc.Endpoint.{validate_endpoint}
use pg_grpc.ChannelCache.{Key, Channels, tls_eq, builder_for, connect_to, store}
use pg_grpc.Registry.{Registry, get_proto, insert_proto_reflection}
use pg_grpc.Proto.Fetch.{fetch_pool}
use pg_grpc.Call.Method.{parse_method}
use pg_grpc.Call.Metadata.{MetadataMap, apply_metadata}
use pg_grpc.Call.Network.{Bytes, Libraries}
use pg_grpc.Call.Codec.{raw_bytes_codec}
use pg_grpc.Call.Messages.{resolve_method, encode_request, decode_response}

-- The arguments of `call_async`.
pub record Request (N : Type 0) : Type 0 where
  pub endpoint : String
  pub method : String
  pub request_json : Value N
  pub use_reflection : Bool
  pub metadata : Option (Value N)
  pub tls : Option TlsConfig
  pub max_decode : Option ℕ
  pub max_encode : Option ℕ

module _ (lib : Libraries) where
  -- CHANNELS and PROTO_REGISTRY, which the tasks of a process share.
  pub record Caches : Type 0 where
    pub channels : Channels lib.transport
    pub registry : Registry lib.descriptors.DescriptorPool

  -- What is at hand for the unary call: the method, the request's bytes, its path and the client.
  pub record Prepared : Type 0 where
    pub method_desc : lib.MethodDescriptor
    pub request_bytes : Bytes
    pub path : lib.PathAndQuery
    pub grpc : lib.Grpc

  -- Where a call waits, with what it has found out: for its channel; for the descriptors of its
  -- service; for the client to be ready; for the response. Or it has its result.
  pub data Stage : Type 0 where
    connecting : String → String → Key → lib.transport.Endpoint → Stage
    fetching : String → String → lib.transport.Channel → Stage
    readying : Prepared → Stage
    calling : Prepared → MetadataMap lib.numbers lib.metadata → Stage
    finished : GrpcResult (Value lib.numbers.N) → Stage

module _ (lib : Libraries) (a : Request lib.numbers.N) where
  -- The limits on messages, where they are given.
  abbrev pub limit_decoding : Option ℕ → lib.Grpc → lib.Grpc
  limit_decoding none grpc = grpc
  limit_decoding (some n) grpc = lib.max_decoding_message_size grpc n

  abbrev pub limit_encoding : Option ℕ → lib.Grpc → lib.Grpc
  limit_encoding none grpc = grpc
  limit_encoding (some n) grpc = lib.max_encoding_message_size grpc n

  abbrev pub client : lib.transport.Channel → lib.Grpc
  client channel = limit_encoding a.max_encode (limit_decoding a.max_decode (lib.new_grpc channel))

  -- From the pool to the wait for the client.
  unfoldable pub prepare :
      String
      → String
      → lib.transport.Channel
      → lib.descriptors.DescriptorPool
      → GrpcResult (Prepared lib)
  prepare service_name method_name channel pool = do
    method_desc ← resolve_method lib pool service_name method_name
    request_bytes ← encode_request lib (lib.input method_desc) a.request_json
    path ← map_err proto (lib.parse_path ("/" ⧺ service_name ⧺ "/" ⧺ method_name))
    ok (record {
      method_desc = method_desc;
      request_bytes = request_bytes;
      path = path;
      grpc = client channel;
    })

  abbrev pub ready_or_fail : GrpcResult (Prepared lib) → Stage lib
  ready_or_fail (ok p) = readying p
  ready_or_fail (err e) = finished (err e)

  -- From the channel to the next wait: the descriptors are at hand, are to be fetched, or are missing.
  abbrev pub find_pool :
      String
      → String
      → lib.transport.Channel
      → Option lib.descriptors.DescriptorPool
      → Bool
      → Stage lib
  find_pool service_name method_name channel (some pool) use_reflection =
      ready_or_fail (prepare service_name method_name channel pool)
  find_pool service_name method_name channel none true = fetching service_name method_name channel
  find_pool service_name method_name channel none false =
      finished
        (err (proto ("service not found in registry and reflection disabled: " ⧺ service_name)))

  unfoldable pub with_channel :
      String → String → Caches lib → lib.transport.Channel → Caches lib × Stage lib
  with_channel service_name method_name c channel = (
    c,
    find_pool service_name method_name channel (get_proto service_name c.registry) a.use_reflection,
  )

  abbrev pub connect_or_fail : String → String → Key → GrpcResult lib.transport.Endpoint → Stage lib
  connect_or_fail service_name method_name key (ok builder) =
      connecting service_name method_name key builder
  connect_or_fail service_name method_name key (err e) = finished (err e)

  abbrev pub use_channel :
      String → String → Key → Caches lib → Option lib.transport.Channel → Caches lib × Stage lib
  use_channel service_name method_name key c (some channel) =
      with_channel service_name method_name c channel
  use_channel service_name method_name key c none =
      (c, connect_or_fail service_name method_name key (builder_for lib.transport key))

  abbrev pub find_channel :
      String → String → Caches lib → GrpcResult String → Caches lib × Stage lib
  find_channel service_name method_name c (err e) = (c, finished (err e))
  find_channel service_name method_name c (ok host) =
      use_channel service_name method_name (host, a.tls) c (HashMap.get c.channels (host, a.tls))

  abbrev pub find_method_path : Caches lib → GrpcResult (String × String) → Caches lib × Stage lib
  find_method_path c (err e) = (c, finished (err e))
  find_method_path c (ok (service_name, method_name)) =
      find_channel service_name method_name c (validate_endpoint a.endpoint)

  -- From the start of the call to its first wait.
  unfoldable pub begin : Caches lib → Caches lib × Stage lib
  begin c = find_method_path c (parse_method a.method)

  abbrev pub connected :
      String
      → String
      → Caches lib
      → GrpcResult lib.transport.Channel × Channels lib.transport
      → Caches lib × Stage lib
  connected service_name method_name c (ok channel, channels) =
      with_channel service_name method_name (record c { channels = channels }) channel
  connected service_name method_name c (err e, channels) =
      (record c { channels = channels }, finished (err e))

  abbrev pub fetched :
      String
      → String
      → lib.transport.Channel
      → Caches lib
      → GrpcResult lib.descriptors.DescriptorPool
      → Caches lib × Stage lib
  fetched service_name method_name channel c (err e) = (c, finished (err e))
  fetched service_name method_name channel c (ok pool) = (
    record c { registry = insert_proto_reflection service_name pool a.endpoint c.registry },
    ready_or_fail (prepare service_name method_name channel pool),
  )

  abbrev pub call_or_fail :
      Prepared lib → GrpcResult (MetadataMap lib.numbers lib.metadata) → Stage lib
  call_or_fail p (ok md) = calling p md
  call_or_fail p (err e) = finished (err e)

  abbrev pub is_ready : Prepared lib → Result String (Unit {0}) → Stage lib
  is_ready p (err e) = finished (err (connection e))
  is_ready p (ok u) = call_or_fail p (apply_metadata lib.numbers lib.metadata [] a.metadata)

  abbrev pub responded : Prepared lib → Result String Bytes → GrpcResult (Value lib.numbers.N)
  responded p r = map_err call r >>= decode_response lib (lib.output p.method_desc)

  -- From the reply that a call waits for, at this time, to its next wait.
  unfoldable pub resume : ℕ → Caches lib → Stage lib → Caches lib × Stage lib
  resume now c (connecting service_name method_name key builder) =
      connected service_name method_name c
        (store lib.transport key (connect_to lib.transport now key.0 builder) c.channels)
  resume now c (fetching service_name method_name channel) =
      fetched service_name method_name channel c
        (fetch_pool (lib.reflection now channel) service_name a.max_decode a.max_encode)
  resume now c (readying p) = (c, is_ready p (lib.ready now p.grpc))
  resume now c (calling p md) =
      (c, finished (responded p (lib.unary now p.grpc p.request_bytes md p.path raw_bytes_codec)))
  resume now c (finished r) = (c, finished r)
