-- ===== src/Call/Tasks/Shared.antt =====
-- The calls of one process share the channels of src/channel_cache.rs.
use mathlib.Core.List.{List, [], ◌∷◌, ◌++◌}
use mathlib.Core.Option.{some-injective}
use pg_grpc.Common.{◌≡◌, sym, ap, ap₂, ◌∙◌, subst, String, some, ok, ok-injective, string_eq, arith}
use pg_grpc.Common.Keys.{option_eq, pair_eq}
use pg_grpc.HashMap
use pg_grpc.Endpoint.{validate_endpoint}
use pg_grpc.ChannelCache.{tls_eq}
use pg_grpc.Call.Metadata.{MetadataMap}
use pg_grpc.Common.Alls.{All-middle}
use pg_grpc.Call.Network.{Libraries}
use pg_grpc.Call.Async.{Request, Caches, Prepared, readying, calling, client, prepare}
use pg_grpc.Call.Async.Finds.{Fits}
use pg_grpc.Call.Tasks.{Task, Process, Reach}
use pg_grpc.Call.Tasks.Laws.{AllFind, FindsIn, Reach-Follows}

module _ (lib : Libraries) where
  -- A task of the process is about to send its prepared request, or waits for the response to it.
  pub data Sends (t : Process lib) (a : Request lib.numbers.N) (p : Prepared lib) : Type 0 where
    about_to :
        (before after : List (Task lib)) → t.tasks ≡ before ++ (a, readying p) ∷ after → Sends t a p
    has_sent :
        (before after : List (Task lib)) (md : MetadataMap lib.numbers lib.metadata)
        → t.tasks ≡ before ++ (a, calling p md) ∷ after
        → Sends t a p

  Sends-Fits :
      (t : Process lib) (a : Request lib.numbers.N) (p : Prepared lib)
      → AllFind t.caches t.tasks
      → Sends t a p
      → Fits a t.caches p
  Sends-Fits t a p h (about_to before after e) =
      (All-middle (FindsIn t.caches) before (a, readying p) after (subst (AllFind t.caches) e h)).0
  Sends-Fits t a p h (has_sent before after md e) =
      (All-middle (FindsIn t.caches) before (a, calling p md) after
        (subst (AllFind t.caches) e h)).0.0

  -- A request is prepared with a client over its channel.
  prepare-client :
      (a : Request lib.numbers.N) (s m : String) (channel : lib.transport.Channel)
      (pool : lib.descriptors.DescriptorPool) (p : Prepared lib)
      → prepare lib a s m channel pool ≡ ok p
      → p.grpc ≡ client lib a channel
  unfolding prepare
  prepare-client a s m channel pool p h = ground arith

  Fits-client :
      (a : Request lib.numbers.N) (c : Caches lib) (p : Prepared lib) (f : Fits a c p)
      → p.grpc ≡ client lib a f.channel
  Fits-client a c p f = prepare-client a f.service f.method f.channel f.pool p f.prepared

  -- In every interleaving of the calls of a process, those that send to one host under the same TLS
  -- settings send over one and the same channel, the one that is stored for them.
  pub one_channel_each :
      (s t : Process lib) (a a' : Request lib.numbers.N) (p p' : Prepared lib) (host : String)
      → s.tasks ≡ []
      → Reach lib s t
      → Sends t a p
      → Sends t a' p'
      → validate_endpoint a.endpoint ≡ ok host
      → validate_endpoint a'.endpoint ≡ ok host
      → a'.tls ≡ a.tls
      → (channel : lib.transport.Channel) × (HashMap.get t.caches.channels (host, a.tls)
          ≡ some channel)
        × (p.grpc ≡ client lib a channel)
        × (p'.grpc ≡ client lib a' channel)
  one_channel_each s t a a' p p' host quiet reach sends sends' valid valid' same =
      let finds = (Reach-Follows s t quiet reach).1 in
      let f = Sends-Fits t a p finds sends in
      let f' = Sends-Fits t a' p' finds sends' in
      let (own, v, stored) = f.cached in
      let (own', v', stored') = f'.cached in
      let key : (own', a'.tls) ≡ (own, a.tls) =
        ap₂ (λ x y. (x, y)) (ok-injective (sym v' ∙ valid' ∙ sym valid ∙ v)) same in
      let shared : f'.channel ≡ f.channel =
        some-injective _ _ (sym stored' ∙ ap (HashMap.get t.caches.channels) key ∙ stored) in
      (
        f.channel,
        subst (λ h. HashMap.get t.caches.channels (h, a.tls) ≡ some f.channel)
            (ok-injective (sym v ∙ valid)) stored,
        Fits-client a t.caches p f,
        Fits-client a' t.caches p' f' ∙ ap (client lib a') shared,
      )
