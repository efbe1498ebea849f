-- ===== src/Call/Async/Finds.antt =====
-- What a call of src/call.rs has found out at each of its waits, and what its caches keep.
use pg_grpc.Common.{ℕ, ◌≤◌, ◌≡◌, String, some, [], ok, err, string_eq}
use pg_grpc.Common.Keys.{option_eq, pair_eq}
use pg_grpc.HashMap
use pg_grpc.Json.{Value}
use pg_grpc.Endpoint.{validate_endpoint}
use pg_grpc.ChannelCache.{tls_eq}
use pg_grpc.ChannelCache.Laws.{Extends}
use pg_grpc.Registry.{get_proto}
use pg_grpc.Call.Method.{parse_method}
use pg_grpc.Call.Metadata.{MetadataMap, apply_metadata}
use pg_grpc.Call.Network.{Bytes, Libraries}
use pg_grpc.Call.Codec.{raw_bytes_codec}
use pg_grpc.Call.Messages.{decode_response}
use pg_grpc.Call.Async.{
  Request, Caches, Prepared, Stage, connecting, fetching, readying, calling, finished, prepare,
}

module _ {lib : Libraries} where
  -- How many waits a call still has at most.
  abbrev pub waits_left : Stage lib → ℕ
  waits_left (connecting s m key builder) = 4
  waits_left (fetching s m channel) = 3
  waits_left (readying p) = 2
  waits_left (calling p md) = 1
  waits_left (finished r) = 0

  -- The descriptors of a service are at hand.
  abbrev pub Known : Caches lib → String → Type 0
  Known c service =
      (pool : lib.descriptors.DescriptorPool) × (get_proto service c.registry ≡ some pool)

  -- No channel is replaced, and no service is forgotten.
  pub record Grows (c c' : Caches lib) : Type 0 where
    pub channels : Extends lib.transport c.channels c'.channels
    pub services : (service : String) → Known c service → Known c' service

  pub Grows-refl : (c : Caches lib) → Grows c c
  Grows-refl c = record { channels = λ key ch h. h; services = λ s h. h }

  pub Grows-trans : {c c' c'' : Caches lib} → Grows c c' → Grows c' c'' → Grows c c''
  Grows-trans g h = record {
    channels = λ key ch e. h.channels key ch (g.channels key ch e);
    services = λ s k. h.services s (g.services s k);
  }

module _ {lib : Libraries} (a : Request lib.numbers.N) where
  -- The call's channel is in the cache.
  abbrev pub Cached : Caches lib → lib.transport.Channel → Type 0
  Cached c ch =
      (host : String) × (validate_endpoint a.endpoint ≡ ok host)
      × (HashMap.get c.channels (host, a.tls) ≡ some ch)

  -- A request that was made ready for the call's method, on its channel, from some descriptors; the
  -- caches have its channel and know its service.
  pub record Fits (c : Caches lib) (p : Prepared lib) : Type 0 where
    pub service : String
    pub method : String
    pub channel : lib.transport.Channel
    pub pool : lib.descriptors.DescriptorPool
    pub parsed : parse_method a.method ≡ ok (service, method)
    pub cached : Cached c channel
    pub known : Known c service
    pub prepared : prepare lib a service method channel pool ≡ ok p

  -- The value is the server's answer to the call's request.
  pub record Answers (c : Caches lib) (v : Value lib.numbers.N) : Type 0 where
    pub request : Prepared lib
    pub headers : MetadataMap lib.numbers lib.metadata
    pub fits : Fits c request
    pub has_metadata : apply_metadata lib.numbers lib.metadata [] a.metadata ≡ ok headers
    pub time : ℕ
    pub response : Bytes
    pub answered :
        lib.unary time request.grpc request.request_bytes headers request.path raw_bytes_codec
        ≡ ok response
    pub decoded : decode_response lib (lib.output request.method_desc) response ≡ ok v

  -- What a call has found out where it waits.
  abbrev pub Finds : Caches lib → Stage lib → Type 0
  Finds c (connecting s m (host, tls) builder) =
      (parse_method a.method ≡ ok (s, m)) × (validate_endpoint a.endpoint ≡ ok host) × (tls ≡ a.tls)
  Finds c (fetching s m ch) = (parse_method a.method ≡ ok (s, m)) × Cached c ch
  Finds c (readying p) = Fits c p
  Finds c (calling p md) =
      Fits c p × (apply_metadata lib.numbers lib.metadata [] a.metadata ≡ ok md)
  Finds c (finished (ok v)) = Answers c v
  Finds c (finished (err e)) = Unit

  -- A piece leads from some caches to others and to a wait with so many left at most.
  abbrev pub Leads : ℕ → Caches lib → Caches lib × Stage lib → Type 0
  Leads n c r = (waits_left r.1 ≤ n) × Grows c r.0 × Finds r.0 r.1

  -- It keeps holding while the caches grow.
  Cached-Grows :
      {c c' : Caches lib} (ch : lib.transport.Channel) → Grows c c' → Cached c ch → Cached c' ch
  Cached-Grows ch g (host, valid, e) = (host, valid, g.channels (host, a.tls) ch e)

  Fits-Grows : {c c' : Caches lib} (p : Prepared lib) → Grows c c' → Fits c p → Fits c' p
  Fits-Grows p g f = record {
    service = f.service;
    method = f.method;
    channel = f.channel;
    pool = f.pool;
    parsed = f.parsed;
    cached = Cached-Grows f.channel g f.cached;
    known = g.services f.service f.known;
    prepared = f.prepared;
  }

  pub Answers-Grows :
      {c c' : Caches lib} (v : Value lib.numbers.N) → Grows c c' → Answers c v → Answers c' v
  Answers-Grows v g w = record {
    request = w.request;
    headers = w.headers;
    fits = Fits-Grows w.request g w.fits;
    has_metadata = w.has_metadata;
    time = w.time;
    response = w.response;
    answered = w.answered;
    decoded = w.decoded;
  }

  pub Finds-Grows : {c c' : Caches lib} (st : Stage lib) → Grows c c' → Finds c st → Finds c' st
  Finds-Grows (connecting s m key builder) g f = f
  Finds-Grows (fetching s m ch) g f = (f.0, Cached-Grows ch g f.1)
  Finds-Grows (readying p) g f = Fits-Grows p g f
  Finds-Grows (calling p md) g f = (Fits-Grows p g f.0, f.1)
  Finds-Grows (finished (ok v)) g f = Answers-Grows v g f
  Finds-Grows (finished (err e)) g f = tt
