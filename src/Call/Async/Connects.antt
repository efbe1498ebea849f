-- ===== src/Call/Async/Connects.antt =====
-- The pieces of `call_async` get their channel as `get_or_connect` of src/channel_cache.rs does.
use pg_grpc.Common.{
  ℕ, ◌≡◌, refl, String, Option, none, some, ok, err, string_eq, ◌∙◌, >>=-eq-ok, map_err, map_err-ok,
  ap, ok-injective,
}
use pg_grpc.Common.Keys.{option_eq, pair_eq}
use pg_grpc.Errors.{GrpcError, GrpcResult, connection}
use pg_grpc.HashMap
use pg_grpc.Endpoint.{validate_endpoint}
use pg_grpc.Text.{◌⧺◌}
use pg_grpc.Tls.{TlsConfig}
use pg_grpc.Tls.Build.{build_client_tls_config}
use pg_grpc.ChannelCache.{
  with_tls, Channels, tls_eq, builder_for, connect_to, store, get_or_connect,
}
use pg_grpc.Call.Method.{parse_method}
use pg_grpc.Call.Network.{Libraries}
use pg_grpc.Call.Async.{
  Request, Caches, Stage, connecting, finished, with_channel, connect_or_fail, use_channel,
  find_channel, begin,
}

module _ (lib : Libraries) (a : Request lib.numbers.N) where
  -- What tonic makes of the host and the TLS settings of a call: an http URL without settings, an
  -- https URL with them.
  pub data IsBuilder (host : String) : Option TlsConfig → lib.transport.Endpoint → Type 0 where
    plain :
        (builder : lib.transport.Endpoint)
        → lib.transport.from_shared ("http" ⧺ "://" ⧺ host) ≡ ok builder
        → IsBuilder host none builder
    secured :
        (cfg : TlsConfig) (base builder : lib.transport.Endpoint)
        → lib.transport.from_shared ("https" ⧺ "://" ⧺ host) ≡ ok base
        → lib.transport.tls_config base (build_client_tls_config lib.tls cfg) ≡ ok builder
        → IsBuilder host (some cfg) builder

  -- How `get_or_connect` goes on from where a call stands: it connects and stores; it has failed; or
  -- it has had its channel in the cache.
  pub data Connects (now : ℕ) (others : Channels lib.transport → Channels lib.transport)
      (c : Caches lib) (s m : String) : Stage lib → Type 0 where
    dials :
        (host : String) (builder : lib.transport.Endpoint)
        → validate_endpoint a.endpoint ≡ ok host
        → HashMap.get c.channels (host, a.tls) ≡ none
        → IsBuilder host a.tls builder
        → get_or_connect lib.transport now others a.endpoint a.tls c.channels
          ≡ store lib.transport
              (host, a.tls)
              (connect_to lib.transport now host builder)
              (others c.channels)
        → Connects now others c s m (connecting s m (host, a.tls) builder)
    bad_endpoint :
        (e : GrpcError)
        → validate_endpoint a.endpoint ≡ err e
        → get_or_connect lib.transport now others a.endpoint a.tls c.channels ≡ (err e, c.channels)
        → Connects now others c s m (finished (err e))
    no_builder :
        (host : String) (e : GrpcError)
        → validate_endpoint a.endpoint ≡ ok host
        → HashMap.get c.channels (host, a.tls) ≡ none
        → ((builder : lib.transport.Endpoint) → ¬ IsBuilder host a.tls builder)
        → get_or_connect lib.transport now others a.endpoint a.tls c.channels ≡ (err e, c.channels)
        → Connects now others c s m (finished (err e))
    cached :
        (host : String) (channel : lib.transport.Channel) (st : Stage lib)
        → validate_endpoint a.endpoint ≡ ok host
        → HashMap.get c.channels (host, a.tls) ≡ some channel
        → get_or_connect lib.transport now others a.endpoint a.tls c.channels
          ≡ (ok channel, c.channels)
        → (c, st) ≡ with_channel lib a s m c channel
        → Connects now others c s m st

  secured-IsBuilder :
      (host : String) (cfg : TlsConfig) (base builder : lib.transport.Endpoint)
      → lib.transport.from_shared ("https" ⧺ "://" ⧺ host) ≡ ok base
      → with_tls lib.transport (some cfg) base ≡ ok builder
      → IsBuilder host (some cfg) builder
  secured-IsBuilder host cfg base builder e h =
      secured cfg base builder e (map_err-ok _ _ builder h)

  builder_for-IsBuilder :
      (host : String) (tls : Option TlsConfig) (builder : lib.transport.Endpoint)
      → builder_for lib.transport (host, tls) ≡ ok builder
      → IsBuilder host tls builder
  unfolding builder_for
  builder_for-IsBuilder host none builder h =
      let (base, e, h1) =
        >>=-eq-ok (map_err connection (lib.transport.from_shared ("http" ⧺ "://" ⧺ host))) _ h in
      plain builder (map_err-ok _ _ base e ∙ ap ok (ok-injective h1))
  builder_for-IsBuilder host (some cfg) builder h =
      let (base, e, h1) =
        >>=-eq-ok (map_err connection (lib.transport.from_shared ("https" ⧺ "://" ⧺ host))) _ h in
      secured-IsBuilder host cfg base builder (map_err-ok _ _ base e) h1

  IsBuilder-builder_for :
      (host : String) (tls : Option TlsConfig) (builder : lib.transport.Endpoint)
      → IsBuilder host tls builder
      → builder_for lib.transport (host, tls) ≡ ok builder
  unfolding builder_for
  IsBuilder-builder_for host none builder (plain b e) = rw (e, builder_for) refl
  IsBuilder-builder_for host (some c) builder (secured cfg base b e h) = rw (e, builder_for, h) refl

  err-not-IsBuilder :
      (host : String) (tls : Option TlsConfig) (e : GrpcError)
      → builder_for lib.transport (host, tls) ≡ err e
      → (builder : lib.transport.Endpoint) → ¬ IsBuilder host tls builder
  err-not-IsBuilder host tls e h builder b = let h' = IsBuilder-builder_for host tls builder b in cc

  module _ (now : ℕ) (others : Channels lib.transport → Channels lib.transport)
      (c : Caches lib) where
    connect_or_fail-Connects :
        (s m host : String) (r : GrpcResult lib.transport.Endpoint)
        → validate_endpoint a.endpoint ≡ ok host
        → HashMap.get c.channels (host, a.tls) ≡ none
        → builder_for lib.transport (host, a.tls) ≡ r
        → Connects now others c s m (connect_or_fail lib a s m (host, a.tls) r)
    unfolding get_or_connect
    connect_or_fail-Connects s m host (ok builder) v miss e =
        dials host builder v miss (builder_for-IsBuilder host a.tls builder e)
          (rw (v, miss, e, get_or_connect) refl)
    connect_or_fail-Connects s m host (err x) v miss e =
        no_builder host x v miss (err-not-IsBuilder host a.tls x e)
          (rw (v, miss, e, get_or_connect) refl)

    use_channel-Connects :
        (s m host : String) (o : Option lib.transport.Channel)
        → validate_endpoint a.endpoint ≡ ok host
        → HashMap.get c.channels (host, a.tls) ≡ o
        → Connects now others c s m (use_channel lib a s m (host, a.tls) c o).1
    unfolding get_or_connect with_channel
    use_channel-Connects s m host none v e =
        connect_or_fail-Connects s m host (builder_for lib.transport (host, a.tls)) v e refl
    use_channel-Connects s m host (some channel) v e =
        cached host channel _ v e (rw (v, e, get_or_connect) refl) refl

    find_channel-Connects :
        (s m : String) (r : GrpcResult String)
        → validate_endpoint a.endpoint ≡ r
        → Connects now others c s m (find_channel lib a s m c r).1
    unfolding get_or_connect
    find_channel-Connects s m (ok host) v = use_channel-Connects s m host _ v refl
    find_channel-Connects s m (err x) v = bad_endpoint x v (rw (v, get_or_connect) refl)

    -- A call with a method that can be read comes to its first wait as `get_or_connect` decides. Its
    -- endpoint is not valid, and it has that error, as `get_or_connect` has. Or it goes on with the
    -- channel that the cache has for that host and its TLS settings, which `get_or_connect` returns. Or
    -- the cache has none for them, and it waits for a connection to the host's http URL, or with its
    -- TLS settings to the https URL, whose channel `get_or_connect` stores for that host and settings. Or tonic
    -- refuses that URL or those settings, and it has the error that `get_or_connect` returns.
    pub begin-Connects :
        (s m : String)
        → parse_method a.method ≡ ok (s, m)
        → Connects now others c s m (begin lib a c).1
    unfolding begin
    begin-Connects s m parsed =
        rw (parsed, begin) (find_channel-Connects s m (validate_endpoint a.endpoint) refl)
