-- ===== src/ChannelCache/Laws.antt =====
-- Which channel a call gets from src/channel_cache.rs, whatever other calls do meanwhile.
use pg_grpc.Common.{
  ℕ, ◌≡◌, refl, sym, ap, ◌∙◌, String, Option, none, some, ok, err, string_eq, ok-injective,
}
use pg_grpc.Common.Keys.{option_eq, pair_eq}
use pg_grpc.Errors.{GrpcResult}
use mathlib.Core.Option.{some-injective}
use pg_grpc.HashMap
use pg_grpc.HashMap.{HashMap}
use pg_grpc.HashMap.Laws.{get-or_insert, get-or_insert_kept}
use pg_grpc.Endpoint.{validate_endpoint}
use pg_grpc.Tls.{TlsConfig}
use pg_grpc.Tls.Build.{TlsBuilder}
use pg_grpc.ChannelCache.{
  Transport, Key, Channels, builder_for, connect_to, store, dial, get_or_store, get_or_connect,
  tls_eq,
}

module _ {b : TlsBuilder} (t : Transport b) where
  -- A cache that holds all that another does.
  abbrev pub Extends : Channels t → Channels t → Type 0
  Extends m m' =
      (key : Key) (ch : t.Channel) → HashMap.get m key ≡ some ch → HashMap.get m' key ≡ some ch

  pub stored :
      (key : Key) (r : GrpcResult t.Channel) (m : Channels t) (ch : t.Channel)
      → (store t key r m).0 ≡ ok ch
      → HashMap.get (store t key r m).1 key ≡ some ch
  stored key (err e) m ch h = cc
  stored key (ok new) m ch h = get-or_insert key new m ∙ ap some (ok-injective h)

  pub store-Extends :
      (key : Key) (r : GrpcResult t.Channel) (m : Channels t) → Extends m (store t key r m).1
  store-Extends key (err e) m j old h = h
  store-Extends key (ok new) m j old h = get-or_insert_kept key new m j old h

  dial-stored :
      (now : ℕ) (others : Channels t → Channels t) (key : Key) (m : Channels t)
      (r : GrpcResult t.Endpoint) (ch : t.Channel)
      → (dial t now others key m r).0 ≡ ok ch
      → HashMap.get (dial t now others key m r).1 key ≡ some ch
  dial-stored now others key m (err e) ch h = cc
  dial-stored now others key m (ok builder) ch h =
      stored key (connect_to t now key.0 builder) (others m) ch h

  dial-Extends :
      (now : ℕ) (others : Channels t → Channels t) (key : Key) (m : Channels t)
      (r : GrpcResult t.Endpoint)
      → Extends m (others m)
      → Extends m (dial t now others key m r).1
  dial-Extends now others key m (err e) grows j ch h = h
  dial-Extends now others key m (ok builder) grows j ch h =
      store-Extends key (connect_to t now key.0 builder) (others m) j ch (grows j ch h)

  -- What is stored while a call connects is what that call gets.
  dial-overlap :
      (now : ℕ) (others : Channels t → Channels t) (key : Key) (m : Channels t)
      (r : GrpcResult t.Endpoint) (ch ch' : t.Channel)
      → HashMap.get (others m) key ≡ some ch'
      → (dial t now others key m r).0 ≡ ok ch
      → ch ≡ ch'
  dial-overlap now others key m (err x) ch ch' e h = cc
  dial-overlap now others key m (ok builder) ch ch' e h =
      let r = connect_to t now key.0 builder in
      let own = stored key r (others m) ch h in
      let kept = store-Extends key r (others m) key ch' e in some-injective ch ch' (sym own ∙ kept)

  get_or_store-stored :
      (now : ℕ) (others : Channels t → Channels t) (key : Key) (m : Channels t)
      (found : Option t.Channel) (ch : t.Channel)
      → HashMap.get m key ≡ found
      → (get_or_store t now others key m found).0 ≡ ok ch
      → HashMap.get (get_or_store t now others key m found).1 key ≡ some ch
  get_or_store-stored now others key m (some old) ch e h = e ∙ ap some (ok-injective h)
  get_or_store-stored now others key m none ch e h = dial-stored now others key m _ ch h

  get_or_store-Extends :
      (now : ℕ) (others : Channels t → Channels t) (key : Key) (m : Channels t)
      (found : Option t.Channel)
      → Extends m (others m)
      → Extends m (get_or_store t now others key m found).1
  get_or_store-Extends now others key m (some old) grows j ch h = h
  get_or_store-Extends now others key m none grows j ch h =
      dial-Extends now others key m (builder_for t key) grows j ch h

  get_or_connect-hit :
      (now : ℕ) (others : Channels t → Channels t) (endpoint host : String) (tls : Option TlsConfig)
      (m : Channels t) (ch : t.Channel)
      → validate_endpoint endpoint ≡ ok host
      → HashMap.get m (host, tls) ≡ some ch
      → get_or_connect t now others endpoint tls m ≡ (ok ch, m)
  unfolding get_or_connect
  get_or_connect-hit now others endpoint host tls m ch v h = rw (v, h, get_or_connect) refl

  -- A call that gets a channel leaves it in the cache for its host and TLS settings, and whatever the
  -- calls that ran while it connected have stored, none of them loses its channel by it.
  get_or_connect-Extends :
      (now : ℕ) (others : Channels t → Channels t) (endpoint host : String) (tls : Option TlsConfig)
      (m : Channels t) (ch : t.Channel)
      → validate_endpoint endpoint ≡ ok host
      → Extends m (others m)
      → (get_or_connect t now others endpoint tls m).0 ≡ ok ch
      → (HashMap.get (get_or_connect t now others endpoint tls m).1 (host, tls) ≡ some ch)
        × Extends m (get_or_connect t now others endpoint tls m).1
  unfolding get_or_connect
  get_or_connect-Extends now others endpoint host tls m ch v grows =
      rw (v, get_or_connect)
        (λ h. (
          get_or_store-stored now others (host, tls) m _ ch refl h,
          get_or_store-Extends now others (host, tls) m _ grows,
        ))

  -- Once a call has its channel, every later call for the same host and TLS settings gets that one
  -- and does not connect, however the host was spelt and whatever was stored in between.
  pub one_channel :
      (now now' : ℕ) (others others' : Channels t → Channels t) (endpoint endpoint' host : String)
      (tls : Option TlsConfig) (m later : Channels t) (ch : t.Channel)
      → validate_endpoint endpoint ≡ ok host
      → validate_endpoint endpoint' ≡ ok host
      → Extends m (others m)
      → (get_or_connect t now others endpoint tls m).0 ≡ ok ch
      → Extends (get_or_connect t now others endpoint tls m).1 later
      → get_or_connect t now' others' endpoint' tls later ≡ (ok ch, later)
  one_channel now now' others others' endpoint endpoint' host tls m later ch v v' grows h after =
      get_or_connect-hit now' others' endpoint' host tls later ch v' (
        after (host, tls) ch (get_or_connect-Extends now others endpoint host tls m ch v grows h).0)

  overlap_found :
      (now : ℕ) (others : Channels t → Channels t) (key : Key) (m : Channels t)
      (found : Option t.Channel) (ch ch' : t.Channel)
      → ((old : t.Channel) → found ≡ some old → old ≡ ch')
      → HashMap.get (others m) key ≡ some ch'
      → (get_or_store t now others key m found).0 ≡ ok ch
      → ch ≡ ch'
  overlap_found now others key m (some old) ch ch' same e h = sym (ok-injective h) ∙ same old refl
  overlap_found now others key m none ch ch' same e h =
      dial-overlap now others key m (builder_for t key) ch ch' e h

  -- Of two calls for the same host and TLS settings that start on the same cache, the one that stores
  -- its channel second drops it and gets the channel of the first.
  pub overlapping_calls :
      (now now' : ℕ) (others others' : Channels t → Channels t) (endpoint endpoint' host : String)
      (tls : Option TlsConfig) (m : Channels t) (ch ch' : t.Channel)
      → validate_endpoint endpoint ≡ ok host
      → validate_endpoint endpoint' ≡ ok host
      → Extends m (others' m)
      → (get_or_connect t now' others' endpoint' tls m).0 ≡ ok ch'
      → Extends (get_or_connect t now' others' endpoint' tls m).1 (others m)
      → (get_or_connect t now others endpoint tls m).0 ≡ ok ch
      → ch ≡ ch'
  unfolding get_or_connect
  overlapping_calls now now' others others' endpoint endpoint' host tls m ch ch' v v' grows h
        after =
      rw (v, get_or_connect)
        (overlap_found now others (host, tls) m (HashMap.get m (host, tls)) ch ch'
          (λ old e. ok-injective (
            sym (ap (λ r. r.0) (get_or_connect-hit now' others' endpoint' host tls m old v' e))
            ∙ h))
          (after (host, tls) ch'
            (get_or_connect-Extends now' others' endpoint' host tls m ch' v' grows h).0))
