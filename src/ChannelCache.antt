-- ===== src/ChannelCache.antt =====
-- src/channel_cache.rs: one connection for each host and TLS setting, shared by all calls.
pub mod Laws
pub mod Tests
use pg_grpc.Common.{
  ℕ, String, Bool, true, false, ◌&&◌, Option, none, some, Result, ok, err, ◌>>=◌, map_err, Eq, ◌==◌,
  ◌≡◌, ◌↔◌, refl, arith, string_eq, nat_eq,
}
use pg_grpc.Common.Keys.{option_same_iff, option_eq, list_eq, pair_eq}
use pg_grpc.Text.{◌⧺◌}
use pg_grpc.Errors.{GrpcResult, connection}
use pg_grpc.HashMap
use pg_grpc.HashMap.{HashMap}
use pg_grpc.Endpoint.{validate_endpoint}
use pg_grpc.Tls.{TlsConfig}
use pg_grpc.Tls.Build.{TlsBuilder, build_client_tls_config}

-- tonic's transport: what the program calls of it. An error is its text; `connect` may answer
-- differently from time to time.
pub record Transport (b : TlsBuilder) : Type 1 where
  pub Channel : Type 0
  pub Endpoint : Type 0
  pub from_shared : String → Result String Endpoint
  pub tls_config : Endpoint → b.ClientTlsConfig → Result String Endpoint
  pub connect : ℕ → Endpoint → Result String Channel

-- The derived `Eq` of TlsConfig.
abbrev pub tls_same : TlsConfig → TlsConfig → Bool
tls_same a c =
    (a.ca_cert == c.ca_cert)
    && (a.client_cert == c.client_cert)
    && (a.client_key == c.client_key)
    && (a.domain_name == c.domain_name)

pub tls_same_iff : (a c : TlsConfig) → (tls_same a c ≡ true) ↔ (a ≡ c)
tls_same_iff a c = ground (
  arith,
  option_same_iff a.ca_cert c.ca_cert,
  option_same_iff a.client_cert c.client_cert,
  option_same_iff a.client_key c.client_key,
  option_same_iff a.domain_name c.domain_name,
)

instance abbrev pub tls_eq : Eq TlsConfig
tls_eq = record { same = tls_same; same_iff = tls_same_iff }

abbrev pub Key : Type 0
Key = String × Option TlsConfig

abbrev pub scheme : Option TlsConfig → String
scheme none = "http"
scheme (some tls) = "https"

module _ {b : TlsBuilder} (t : Transport b) where
  abbrev pub Channels : Type 0
  Channels = HashMap Key t.Channel

  abbrev pub with_tls : Option TlsConfig → t.Endpoint → GrpcResult t.Endpoint
  with_tls none builder = ok builder
  with_tls (some tls_cfg) builder =
      map_err (λ e. connection ("TLS config: " ⧺ e))
        (t.tls_config builder (build_client_tls_config b tls_cfg))

  -- What is to be connected: the URL, with the TLS settings if there are any.
  unfoldable pub builder_for : Key → GrpcResult t.Endpoint
  builder_for (host, tls) = do
    plain ← map_err connection (t.from_shared (scheme tls ⧺ "://" ⧺ host))
    with_tls tls plain

  abbrev pub connect_to : ℕ → String → t.Endpoint → GrpcResult t.Channel
  connect_to now host builder = map_err (λ e. connection (host ⧺ ": " ⧺ e)) (t.connect now builder)

  -- The write at the end: the first channel that was stored under a key stays.
  abbrev pub store : Key → GrpcResult t.Channel → Channels → GrpcResult t.Channel × Channels
  store key (err e) channels = (err e, channels)
  store key (ok channel) channels =
      let (next, kept) = HashMap.or_insert key channel channels in (ok kept, next)

  -- The connection. Other calls run while it is awaited; an error before that leaves the cache as it is.
  abbrev pub dial :
      ℕ
      → (Channels → Channels)
      → Key
      → Channels
      → GrpcResult t.Endpoint
      → GrpcResult t.Channel × Channels
  dial now others key channels (err e) = (err e, channels)
  dial now others key channels (ok builder) =
      store key (connect_to now key.0 builder) (others channels)

  abbrev pub get_or_store :
      ℕ
      → (Channels → Channels)
      → Key
      → Channels
      → Option t.Channel
      → GrpcResult t.Channel × Channels
  get_or_store now others key channels (some channel) = (ok channel, channels)
  get_or_store now others key channels none = dial now others key channels (builder_for key)

  -- `get_or_connect`, and the cache that it leaves. Other calls run while this one connects: `others`
  -- is what they make of the cache.
  unfoldable pub get_or_connect :
      ℕ
      → (Channels → Channels)
      → String
      → Option TlsConfig
      → Channels
      → GrpcResult t.Channel × Channels
  get_or_connect now others endpoint tls channels = elim (validate_endpoint endpoint) [
    | err e ↦ (err e, channels)
    | ok host ↦ get_or_store now others (host, tls) channels (HashMap.get channels (host, tls))
  ]
