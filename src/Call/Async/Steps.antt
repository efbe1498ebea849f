-- ===== src/Call/Async/Steps.antt =====
-- The start of `call_async`, up to its first wait: it takes nothing out of the caches, and keeps what
-- it has found out.
use pg_grpc.Common.{
  ℕ, ◌≤◌, ◌≡◌, refl, String, Bool, true, false, Option, none, some, ok, err, arith, string_eq,
}
use pg_grpc.Common.Keys.{option_eq, pair_eq}
use pg_grpc.Errors.{GrpcResult}
use pg_grpc.HashMap
use pg_grpc.Endpoint.{validate_endpoint}
use pg_grpc.ChannelCache.{tls_eq, builder_for}
use pg_grpc.Registry.{get_proto}
use pg_grpc.Call.Method.{parse_method}
use pg_grpc.Call.Network.{Libraries}
use pg_grpc.Call.Async.{
  Request, Caches, Prepared, Stage, prepare, ready_or_fail, find_pool, with_channel,
  connect_or_fail, use_channel, find_channel, find_method_path, begin,
}
use pg_grpc.Call.Async.Finds.{Known, Grows, Grows-refl, Cached, Leads}

module _ {lib : Libraries} (a : Request lib.numbers.N) where
  pub ready_or_fail-Leads :
      (c c' : Caches lib) (s m : String) (ch : lib.transport.Channel)
      (pool : lib.descriptors.DescriptorPool) (r : GrpcResult (Prepared lib))
      → Grows c c'
      → parse_method a.method ≡ ok (s, m)
      → Cached a c' ch
      → Known c' s
      → prepare lib a s m ch pool ≡ r
      → Leads a 2 c (c', ready_or_fail lib a r)
  ready_or_fail-Leads c c' s m ch pool (ok p) g parsed cached known e = (
    omega arith,
    g,
    record {
      service = s;
      method = m;
      channel = ch;
      pool = pool;
      parsed = parsed;
      cached = cached;
      known = known;
      prepared = e;
    },
  )
  ready_or_fail-Leads c c' s m ch pool (err e) g parsed cached known h = (omega arith, g, tt)

  pub Leads-weaken :
      (n k : ℕ) (c : Caches lib) (r : Caches lib × Stage lib)
      → n ≤ k
      → Leads a n c r
      → Leads a k c r
  Leads-weaken n k c r le l = (omega (arith, l.0), l.1, l.2)

  find_pool-Leads :
      (c c' : Caches lib) (s m : String) (ch : lib.transport.Channel)
      (o : Option lib.descriptors.DescriptorPool) (b : Bool)
      → Grows c c'
      → parse_method a.method ≡ ok (s, m)
      → Cached a c' ch
      → get_proto s c'.registry ≡ o
      → Leads a 3 c (c', find_pool lib a s m ch o b)
  find_pool-Leads c c' s m ch (some pool) b g parsed cached e =
      Leads-weaken 2 3 c _ (omega arith)
        (ready_or_fail-Leads c c' s m ch pool _ g parsed cached (pool, e) refl)
  find_pool-Leads c c' s m ch none true g parsed cached e = (omega arith, g, (parsed, cached))
  find_pool-Leads c c' s m ch none false g parsed cached e = (omega arith, g, tt)

  pub with_channel-Leads :
      (c c' : Caches lib) (s m : String) (ch : lib.transport.Channel)
      → Grows c c'
      → parse_method a.method ≡ ok (s, m)
      → Cached a c' ch
      → Leads a 3 c (with_channel lib a s m c' ch)
  unfolding with_channel
  with_channel-Leads c c' s m ch g parsed cached =
      find_pool-Leads c c' s m ch (get_proto s c'.registry) a.use_reflection g parsed cached refl

  connect_or_fail-Leads :
      (c : Caches lib) (s m host : String) (r : GrpcResult lib.transport.Endpoint)
      → parse_method a.method ≡ ok (s, m)
      → validate_endpoint a.endpoint ≡ ok host
      → Leads a 4 c (c, connect_or_fail lib a s m (host, a.tls) r)
  connect_or_fail-Leads c s m host (ok b) parsed valid =
      (omega arith, Grows-refl c, (parsed, valid, refl))
  connect_or_fail-Leads c s m host (err e) parsed valid = (omega arith, Grows-refl c, tt)

  use_channel-Leads :
      (c : Caches lib) (s m host : String) (o : Option lib.transport.Channel)
      → parse_method a.method ≡ ok (s, m)
      → validate_endpoint a.endpoint ≡ ok host
      → HashMap.get c.channels (host, a.tls) ≡ o
      → Leads a 4 c (use_channel lib a s m (host, a.tls) c o)
  use_channel-Leads c s m host (some ch) parsed valid e =
      Leads-weaken 3 4 c _ (omega arith)
        (with_channel-Leads c c s m ch (Grows-refl c) parsed (host, valid, e))
  use_channel-Leads c s m host none parsed valid e =
      connect_or_fail-Leads c s m host (builder_for lib.transport (host, a.tls)) parsed valid

  find_channel-Leads :
      (c : Caches lib) (s m : String) (r : GrpcResult String)
      → parse_method a.method ≡ ok (s, m)
      → validate_endpoint a.endpoint ≡ r
      → Leads a 4 c (find_channel lib a s m c r)
  find_channel-Leads c s m (err e) parsed valid = (omega arith, Grows-refl c, tt)
  find_channel-Leads c s m (ok host) parsed valid =
      use_channel-Leads c s m host (HashMap.get c.channels (host, a.tls)) parsed valid refl

  find_method_path-Leads :
      (c : Caches lib) (r : GrpcResult (String × String))
      → parse_method a.method ≡ r
      → Leads a 4 c (find_method_path lib a c r)
  find_method_path-Leads c (err e) parsed = (omega arith, Grows-refl c, tt)
  find_method_path-Leads c (ok (s, m)) parsed =
      find_channel-Leads c s m (validate_endpoint a.endpoint) parsed refl

  pub begin-Leads : (c : Caches lib) → Leads a 4 c (begin lib a c)
  unfolding begin
  begin-Leads c = find_method_path-Leads c (parse_method a.method) refl
