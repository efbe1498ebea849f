-- ===== src/Call/Tasks/Pools.antt =====
-- Where the descriptors come from that the requests of src/call.rs are encoded by.
pub mod Laws
use mathlib.Core.List.{List, [], ◌∷◌, ◌++◌}
use mathlib.Core.Option.{some-injective}
use pg_grpc.Common.{
  ℕ, ◌≡◌, refl, sym, ap, ◌∙◌, subst, inl, inr, String, Bool, true, false, Option, none, some,
  Result, ok, err, All, ◌==◌, string_eq, Bool-cases, arith, if◌then◌else◌,
}
use pg_grpc.Common.Alls.{All-middle, All-insert, All-snoc}
use pg_grpc.Common.Keys.{option_eq, pair_eq}
use pg_grpc.Errors.{GrpcResult}
use pg_grpc.HashMap
use pg_grpc.Endpoint.{validate_endpoint}
use pg_grpc.ChannelCache.{Channels, Key, tls_eq, builder_for, connect_to, store}
use pg_grpc.Registry.{Registry, get_proto, insert_proto_reflection}
use pg_grpc.Registry.Laws.{get_proto-insert_proto_reflection}
use pg_grpc.Proto.Fetch.{fetch_pool}
use pg_grpc.Call.Method.{parse_method}
use pg_grpc.Call.Metadata.{MetadataMap, apply_metadata}
use pg_grpc.Call.Network.{Libraries}
use pg_grpc.Call.Async.{
  Request, Caches, Prepared, Stage, connecting, fetching, readying, calling, finished, prepare,
  ready_or_fail, find_pool, with_channel, connect_or_fail, use_channel, find_channel,
  find_method_path, begin, connected, fetched, call_or_fail, is_ready, resume,
}
use pg_grpc.Call.Tasks.{Task, Process, Step, spawns, resumes, drops, Reach, here, next}
use pg_grpc.Call.Tasks.Shared.{Sends, about_to, has_sent}

-- A property that a service's descriptors may have.
module _ (lib : Libraries) (Good : String → lib.descriptors.DescriptorPool → Type 0) where
  -- The descriptors in the registry have it.
  abbrev pub GoodRegistry : Registry lib.descriptors.DescriptorPool → Type 0
  GoodRegistry registry =
      (service : String) (pool : lib.descriptors.DescriptorPool)
      → get_proto service registry ≡ some pool
      → Good service pool

  -- The request was prepared by such descriptors of the service that it is sent to.
  pub record Made (a : Request lib.numbers.N) (p : Prepared lib) : Type 0 where
    pub service : String
    pub method : String
    pub channel : lib.transport.Channel
    pub pool : lib.descriptors.DescriptorPool
    pub good : Good service pool
    pub prepared : prepare lib a service method channel pool ≡ ok p

  abbrev pub MadeAt : Task lib → Type 0
  MadeAt (a, connecting s m key builder) = Unit
  MadeAt (a, fetching s m channel) = Unit
  MadeAt (a, readying p) = Made a p
  MadeAt (a, calling p md) = Made a p
  MadeAt (a, finished r) = Unit

  -- What a piece leaves.
  abbrev pub Leaves : Request lib.numbers.N → Caches lib × Stage lib → Type 0
  Leaves a r = GoodRegistry r.0.registry × MadeAt (a, r.1)

  module _ (a : Request lib.numbers.N) where
    ready_or_fail-MadeAt :
        (s m : String) (ch : lib.transport.Channel) (pool : lib.descriptors.DescriptorPool)
        (r : GrpcResult (Prepared lib))
        → Good s pool
        → prepare lib a s m ch pool ≡ r
        → MadeAt (a, ready_or_fail lib a r)
    ready_or_fail-MadeAt s m ch pool (ok p) g e = record {
      service = s;
      method = m;
      channel = ch;
      pool = pool;
      good = g;
      prepared = e;
    }
    ready_or_fail-MadeAt s m ch pool (err x) g e = tt

    find_pool-MadeAt :
        (s m : String) (ch : lib.transport.Channel) (o : Option lib.descriptors.DescriptorPool)
        (b : Bool)
        → ((pool : lib.descriptors.DescriptorPool) → o ≡ some pool → Good s pool)
        → MadeAt (a, find_pool lib a s m ch o b)
    find_pool-MadeAt s m ch (some pool) b g = ready_or_fail-MadeAt s m ch pool _ (g pool refl) refl
    find_pool-MadeAt s m ch none true g = tt
    find_pool-MadeAt s m ch none false g = tt

    with_channel-Leaves :
        (s m : String) (c : Caches lib) (ch : lib.transport.Channel)
        → GoodRegistry c.registry
        → Leaves a (with_channel lib a s m c ch)
    unfolding with_channel
    with_channel-Leaves s m c ch g = (g, find_pool-MadeAt s m ch _ a.use_reflection (g s))

    connect_or_fail-MadeAt :
        (s m : String) (key : Key) (r : GrpcResult lib.transport.Endpoint)
        → MadeAt (a, connect_or_fail lib a s m key r)
    connect_or_fail-MadeAt s m key (ok builder) = tt
    connect_or_fail-MadeAt s m key (err x) = tt

    use_channel-Leaves :
        (s m : String) (key : Key) (c : Caches lib) (o : Option lib.transport.Channel)
        → GoodRegistry c.registry
        → Leaves a (use_channel lib a s m key c o)
    use_channel-Leaves s m key c (some ch) g = with_channel-Leaves s m c ch g
    use_channel-Leaves s m key c none g = (g, connect_or_fail-MadeAt s m key _)

    find_channel-Leaves :
        (s m : String) (c : Caches lib) (r : GrpcResult String)
        → GoodRegistry c.registry
        → Leaves a (find_channel lib a s m c r)
    find_channel-Leaves s m c (ok host) g = use_channel-Leaves s m (host, a.tls) c _ g
    find_channel-Leaves s m c (err x) g = (g, tt)

    find_method_path-Leaves :
        (c : Caches lib) (r : GrpcResult (String × String))
        → GoodRegistry c.registry
        → Leaves a (find_method_path lib a c r)
    find_method_path-Leaves c (ok (s, m)) g = find_channel-Leaves s m c _ g
    find_method_path-Leaves c (err x) g = (g, tt)

    pub begin-Leaves : (c : Caches lib) → GoodRegistry c.registry → Leaves a (begin lib a c)
    unfolding begin
    begin-Leaves c g = find_method_path-Leaves c (parse_method a.method) g

    pub connected-Leaves :
        (s m : String) (c : Caches lib)
        (r : GrpcResult lib.transport.Channel × Channels lib.transport)
        → GoodRegistry c.registry
        → Leaves a (connected lib a s m c r)
    connected-Leaves s m c (ok ch, channels) g =
        with_channel-Leaves s m (record c { channels = channels }) ch g
    connected-Leaves s m c (err x, channels) g = (g, tt)

    insert-GoodRegistry :
        (s endpoint : String) (pool : lib.descriptors.DescriptorPool)
        (registry : Registry lib.descriptors.DescriptorPool)
        → Good s pool
        → GoodRegistry registry
        → GoodRegistry (insert_proto_reflection s pool endpoint registry)
    insert-GoodRegistry s endpoint pool registry own g j found h =
        let after = get_proto-insert_proto_reflection s j pool endpoint registry in
        elim (Bool-cases (s == j)) [
          | inl same ↦
              let e : some pool ≡ some found = sym (after ∙ (rw same refl)) ∙ h in
              subst (λ n. Good n found) ((string_eq.same_iff s j).0 same)
                (subst (Good s) (some-injective _ _ e) own)
          | inr other ↦ g j found (sym (after ∙ (rw other refl)) ∙ h)
        ]

    pub fetched-Leaves :
        (s m : String) (ch : lib.transport.Channel) (c : Caches lib)
        (r : GrpcResult lib.descriptors.DescriptorPool)
        → ((pool : lib.descriptors.DescriptorPool) → r ≡ ok pool → Good s pool)
        → GoodRegistry c.registry
        → Leaves a (fetched lib a s m ch c r)
    fetched-Leaves s m ch c (err x) own g = (g, tt)
    fetched-Leaves s m ch c (ok pool) own g = (
      insert-GoodRegistry s a.endpoint pool c.registry (own pool refl) g,
      ready_or_fail-MadeAt s m ch pool _ (own pool refl) refl,
    )

    pub is_ready-MadeAt :
        (p : Prepared lib) (r : Result String (Unit {0}))
        → Made a p
        → MadeAt (a, is_ready lib a p r)
    is_ready-MadeAt p (err x) made = tt
    is_ready-MadeAt p (ok u) made = go (apply_metadata lib.numbers lib.metadata [] a.metadata)
      where
        go :
            (r : GrpcResult (MetadataMap lib.numbers lib.metadata))
            → MadeAt (a, call_or_fail lib a p r)
        go (ok md) = made
        go (err x) = tt
