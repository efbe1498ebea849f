-- ===== src/Call/Timed/Warm.antt =====
-- What the caches of src/channel_cache.rs and src/proto_registry.rs spare: after a call has succeeded,
-- later calls of its service on its host neither connect nor ask for descriptors.
use pg_grpc.Common.{
  ◌≤◌, ◌≡◌, refl, sym, ap, ap₂, ◌∙◌, subst, String, some, ok, err, ok-injective, arith, string_eq,
}
use pg_grpc.Common.Keys.{option_eq, pair_eq}
use pg_grpc.Errors.{GrpcResult}
use pg_grpc.HashMap
use pg_grpc.Json.{Value}
use pg_grpc.Endpoint.{validate_endpoint}
use pg_grpc.ChannelCache.{tls_eq}
use pg_grpc.Registry.{get_proto}
use pg_grpc.Call.Method.{parse_method}
use pg_grpc.Call.Network.{Libraries}
use pg_grpc.Call.Async.{Request, Caches, Prepared, prepare, ready_or_fail, with_channel, begin}
use pg_grpc.Call.Async.Finds.{waits_left, Known, Grows, Answers}
use pg_grpc.Call.Timed.{Schedule, Ended, completed, call_with_timeout}
use pg_grpc.Call.Timed.Laws.{EndsWell, OthersGrow, call_with_timeout-Runs}

module _ {lib : Libraries} where
  Answers-completed :
      (a : Request lib.numbers.N) (c : Caches lib) (e : Ended (Value lib.numbers.N))
      (v : Value lib.numbers.N)
      → EndsWell a c e
      → e ≡ completed (ok v)
      → Answers a c v
  Answers-completed a c e v w h = subst (EndsWell a c) h w

  -- With its channel and its descriptors in the caches, a call comes to its first wait with its
  -- request made ready, or it has failed.
  begin_at_hand :
      (a : Request lib.numbers.N) (c : Caches lib) (s m host : String) (ch : lib.transport.Channel)
      (pool : lib.descriptors.DescriptorPool)
      → parse_method a.method ≡ ok (s, m)
      → validate_endpoint a.endpoint ≡ ok host
      → HashMap.get c.channels (host, a.tls) ≡ some ch
      → get_proto s c.registry ≡ some pool
      → begin lib a c ≡ (c, ready_or_fail lib a (prepare lib a s m ch pool))
  unfolding begin with_channel
  begin_at_hand a c s m host ch pool parsed valid cached known =
      rw (parsed, begin, valid, cached, with_channel, known) refl

  ready_or_fail-waits_left :
      (a : Request lib.numbers.N) (r : GrpcResult (Prepared lib))
      → waits_left (ready_or_fail lib a r) ≤ 2
  ready_or_fail-waits_left a (ok p) = omega arith
  ready_or_fail-waits_left a (err e) = omega arith

  -- After a call has succeeded, a later call to the same host, under the same TLS settings and of the
  -- same service, has two waits at most: for the client and for the response. The caches may have
  -- grown in between.
  pub warm_call :
      (a a' : Request lib.numbers.N) (sched : Schedule lib) (c later : Caches lib)
      (v : Value lib.numbers.N) (s m m' host : String)
      → OthersGrow sched
      → (call_with_timeout lib a sched c).1 ≡ completed (ok v)
      → Grows (call_with_timeout lib a sched c).0 later
      → parse_method a.method ≡ ok (s, m)
      → parse_method a'.method ≡ ok (s, m')
      → validate_endpoint a.endpoint ≡ ok host
      → validate_endpoint a'.endpoint ≡ ok host
      → a'.tls ≡ a.tls
      → ((begin lib a' later).0 ≡ later) × (waits_left (begin lib a' later).1 ≤ 2)
  warm_call a a' sched c later v s m m' host grow done grown p p' h h' same =
      let w = Answers-completed a _ _ v (call_with_timeout-Runs a sched grow c).0 done in
      let (own, valid, cached) = w.fits.cached in
      let service = ap (λ (x : String × String). x.0) (ok-injective (sym w.fits.parsed ∙ p)) in
      let address = ok-injective (sym valid ∙ h) in
      let (pool, known) =
        grown.services s
          (subst (Known {lib = lib} (call_with_timeout lib a sched c).0) service w.fits.known) in
      let channel =
        grown.channels (host, a'.tls) w.fits.channel
          (subst
            (λ k. HashMap.get (call_with_timeout lib a sched c).0.channels k ≡ some w.fits.channel)
            (ap₂ (λ x y. (x, y)) address (sym same)) cached) in
      rw (begin_at_hand a' later s m' host w.fits.channel pool p' h' channel known)
        (refl, ready_or_fail-waits_left a' _)
