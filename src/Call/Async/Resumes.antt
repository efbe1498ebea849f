-- ===== src/Call/Async/Resumes.antt =====
-- Each further piece of `call_async`, from one wait to the next: it comes nearer to its end, takes
-- nothing out of the caches, and keeps what it has found out.
use pg_grpc.Common.{
  ℕ, suc, ◌≤◌, ◌≡◌, refl, ◌∙◌, subst, inl, inr, String, some, [], Result, ok, err, arith, ◌==◌,
  ==_refl, string_eq, Bool-cases,
}
use pg_grpc.Common.Keys.{option_eq, pair_eq}
use pg_grpc.Errors.{GrpcResult}
use pg_grpc.HashMap
use pg_grpc.Json.{Value}
use pg_grpc.Endpoint.{validate_endpoint}
use pg_grpc.ChannelCache.{Channels, tls_eq, connect_to, store}
use pg_grpc.ChannelCache.Laws.{Extends, stored, store-Extends}
use pg_grpc.Registry.{insert_proto_reflection}
use pg_grpc.Registry.Laws.{get_proto-insert_proto_reflection}
use pg_grpc.Call.Method.{parse_method}
use pg_grpc.Call.Metadata.{MetadataMap, apply_metadata}
use pg_grpc.Call.Network.{Bytes, Libraries}
use pg_grpc.Call.Codec.{raw_bytes_codec}
use pg_grpc.Call.Messages.{decode_response}
use pg_grpc.Proto.Fetch.{fetch_pool}
use pg_grpc.Call.Async.{
  Request, Caches, Prepared, Stage, connecting, fetching, readying, calling, finished, connected,
  fetched, call_or_fail, is_ready, responded, resume,
}
use pg_grpc.Call.Async.Finds.{waits_left, Known, Grows, Grows-refl, Cached, Fits, Finds, Leads}
use pg_grpc.Call.Async.Steps.{Leads-weaken, ready_or_fail-Leads, with_channel-Leads}

module _ {lib : Libraries} (a : Request lib.numbers.N) where
  connected-Leads :
      (c : Caches lib) (s m host : String)
      (r : GrpcResult lib.transport.Channel × Channels lib.transport)
      → Extends lib.transport c.channels r.1
      → ((ch : lib.transport.Channel) → r.0 ≡ ok ch → HashMap.get r.1 (host, a.tls) ≡ some ch)
      → parse_method a.method ≡ ok (s, m)
      → validate_endpoint a.endpoint ≡ ok host
      → Leads a 3 c (connected lib a s m c r)
  connected-Leads c s m host (ok ch, channels) grows has parsed valid =
      with_channel-Leads a c (record c { channels = channels }) s m ch
        (record { channels = grows; services = λ j k. k }) parsed (host, valid, has ch refl)
  connected-Leads c s m host (err e, channels) grows has parsed valid =
      (omega arith, record { channels = grows; services = λ j k. k }, tt)

  insert-Grows :
      (c : Caches lib) (s endpoint : String) (pool : lib.descriptors.DescriptorPool)
      → Grows c (record c { registry = insert_proto_reflection s pool endpoint c.registry })
        × Known (record c { registry = insert_proto_reflection s pool endpoint c.registry }) s
  insert-Grows c s endpoint pool = (
    record {
      channels = λ key ch h. h;
      services = λ j k. elim (Bool-cases (s == j)) [
        | inl same ↦
            (pool, get_proto-insert_proto_reflection s j pool endpoint c.registry ∙ (rw same refl))
        | inr other ↦
            (k.0, get_proto-insert_proto_reflection s j pool endpoint c.registry ∙ (rw other k.1))
      ];
    },
    (pool, get_proto-insert_proto_reflection s s pool endpoint c.registry ∙ (rw (==_refl s) refl)),
  )

  fetched-Leads :
      (c : Caches lib) (s m : String) (ch : lib.transport.Channel)
      (r : GrpcResult lib.descriptors.DescriptorPool)
      → parse_method a.method ≡ ok (s, m)
      → Cached a c ch
      → Leads a 2 c (fetched lib a s m ch c r)
  fetched-Leads c s m ch (err e) parsed cached = (omega arith, Grows-refl c, tt)
  fetched-Leads c s m ch (ok pool) parsed cached =
      let (g, known) = insert-Grows c s a.endpoint pool in
      ready_or_fail-Leads a c _ s m ch pool _ g parsed cached known refl

  call_or_fail-Leads :
      (c : Caches lib) (p : Prepared lib) (r : GrpcResult (MetadataMap lib.numbers lib.metadata))
      → Fits a c p
      → apply_metadata lib.numbers lib.metadata [] a.metadata ≡ r
      → Leads a 1 c (c, call_or_fail lib a p r)
  call_or_fail-Leads c p (ok md) f e = (omega arith, Grows-refl c, (f, e))
  call_or_fail-Leads c p (err x) f e = (omega arith, Grows-refl c, tt)

  is_ready-Leads :
      (c : Caches lib) (p : Prepared lib) (r : Result String (Unit {0}))
      → Fits a c p
      → Leads a 1 c (c, is_ready lib a p r)
  is_ready-Leads c p (err e) f = (omega arith, Grows-refl c, tt)
  is_ready-Leads c p (ok u) f = call_or_fail-Leads c p _ f refl

  responded-Leads :
      (now : ℕ) (c : Caches lib) (p : Prepared lib) (md : MetadataMap lib.numbers lib.metadata)
      (r : Result String Bytes)
      → Fits a c p
      → apply_metadata lib.numbers lib.metadata [] a.metadata ≡ ok md
      → lib.unary now p.grpc p.request_bytes md p.path raw_bytes_codec ≡ r
      → Leads a 0 c (c, finished (responded lib a p r))
  responded-Leads now c p md (err e) f h u = (omega arith, Grows-refl c, tt)
  responded-Leads now c p md (ok bytes) f h u =
      go (decode_response lib (lib.output p.method_desc) bytes) refl
    where
      go :
          (r : GrpcResult (Value lib.numbers.N))
          → decode_response lib (lib.output p.method_desc) bytes ≡ r
          → Leads a 0 c (c, finished r)
      go (err e) d = (omega arith, Grows-refl c, tt)
      go (ok v) d = (
        omega arith,
        Grows-refl c,
        record {
          request = p;
          headers = md;
          fits = f;
          has_metadata = h;
          time = now;
          response = bytes;
          answered = u;
          decoded = d;
        },
      )

  -- A wait whose reply has come is followed by one that is nearer to the end.
  pub resume-Leads :
      (n now : ℕ) (c : Caches lib) (st : Stage lib)
      → waits_left st ≤ suc n
      → Finds a c st
      → Leads a n c (resume lib a now c st)
  unfolding resume
  resume-Leads n now c (connecting s m (host, tls) builder) le (parsed, valid, same) =
      Leads-weaken a 3 n c _ (omega arith) (
        connected-Leads c s m host _
          (store-Extends lib.transport (host, tls) (connect_to lib.transport now host builder)
            c.channels)
          (λ ch e.
            subst
              (λ t.
                HashMap.get
                  (store lib.transport (host, tls) (connect_to lib.transport now host builder)
                    c.channels).1
                  (host, t)
                ≡ some ch)
              same
              (stored lib.transport (host, tls) (connect_to lib.transport now host builder)
                c.channels ch e))
          parsed valid)
  resume-Leads n now c (fetching s m ch) le (parsed, cached) =
      Leads-weaken a 2 n c _ (omega arith) (
        fetched-Leads c s m ch (fetch_pool (lib.reflection now ch) s a.max_decode a.max_encode)
          parsed cached)
  resume-Leads n now c (readying p) le f =
      Leads-weaken a 1 n c _ (omega arith) (is_ready-Leads c p (lib.ready now p.grpc) f)
  resume-Leads n now c (calling p md) le (f, h) =
      let r = lib.unary now p.grpc p.request_bytes md p.path raw_bytes_codec in
      Leads-weaken a 0 n c (c, finished (responded lib a p r)) (omega arith)
        (responded-Leads now c p md r f h refl)
  resume-Leads n now c (finished r) le f = (omega arith, Grows-refl c, f)
