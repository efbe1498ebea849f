-- ===== src/Tls/Credentials.antt =====
-- What of accepted TLS settings reaches tonic's builder.
use pg_grpc.Common.{ℕ, ◌≡◌, ◌≢◌, ◌↔◌, ◌⊎◌, inl, inr, none, some, ok, List, Option-cases}
use pg_grpc.Json.{Value, object}
use pg_grpc.Tls.{TlsConfig, parse}
use pg_grpc.Tls.Laws.{IsTlsValue, parse_tls_iff}
use pg_grpc.Tls.Build.{TlsBuilder, build_client_tls_config, add_ca, add_domain, add_identity}

module _ {N : Type 0} where
  -- Settings that are accepted hold a client certificate exactly if they hold a client key.
  pub parse-paired :
      (v : Value N) (cfg : TlsConfig)
      → parse v ≡ ok cfg
      → (cfg.client_cert ≡ none) ↔ (cfg.client_key ≡ none)
  parse-paired v cfg h = go v ((parse_tls_iff v cfg).0 h)
    where
      go : (v : Value N) → IsTlsValue v cfg → (cfg.client_cert ≡ none) ↔ (cfg.client_key ≡ none)
      go (object fs) t = t.paired
      go v h = absurd h

  -- Neither half of an accepted client identity is dropped: whenever accepted settings hold a
  -- certificate or a key, they hold both, and the built configuration is given the two together,
  -- after the certificate authority and before the domain name.
  pub build_keeps_identity :
      (b : TlsBuilder) (v : Value N) (cfg : TlsConfig)
      → parse v ≡ ok cfg
      → (cfg.client_cert ≢ none) ⊎ (cfg.client_key ≢ none)
      → (cert : List ℕ) × (key : List ℕ) × (cfg.client_cert ≡ some cert)
        × (cfg.client_key ≡ some key)
        × (build_client_tls_config b cfg
            ≡ add_domain b cfg.domain_name
                (b.identity (add_ca b cfg.ca_cert b.with_native_roots) cert key))
  unfolding build_client_tls_config add_identity
  build_keeps_identity b v cfg h given =
      let pair = parse-paired v cfg h in
      elim (Option-cases cfg.client_cert) [
        | inl no_cert ↦
            absurd (elim given [ inl cert ↦ cert no_cert | inr key ↦ key (pair.0 no_cert) ])
        | inr (cert, e) ↦ elim (Option-cases cfg.client_key) [
          | inl no_key ↦ let no_cert = pair.1 no_key in absurd (cc)
          | inr (key, k) ↦ (cert, key, e, k, rw (e, k))
        ]
      ]
