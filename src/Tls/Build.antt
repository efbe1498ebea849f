-- ===== src/Tls/Build.antt =====
-- `build_client_tls_config` of src/tls.rs, over tonic's builder.
use pg_grpc.Common.{ℕ, String, Option, none, some, List}
use pg_grpc.Tls.{TlsConfig}

-- tonic's `ClientTlsConfig`: what the program calls of it.
pub record TlsBuilder : Type 1 where
  pub ClientTlsConfig : Type 0
  pub with_native_roots : ClientTlsConfig
  pub ca_certificate : ClientTlsConfig → List ℕ → ClientTlsConfig
  pub identity : ClientTlsConfig → List ℕ → List ℕ → ClientTlsConfig
  pub set_domain_name : ClientTlsConfig → String → ClientTlsConfig

module _ (b : TlsBuilder) where
  open b use {ClientTlsConfig, with_native_roots, ca_certificate, identity, set_domain_name}

  unfoldable pub add_ca : Option (List ℕ) → ClientTlsConfig → ClientTlsConfig
  add_ca none cfg = cfg
  add_ca (some ca_cert) cfg = ca_certificate cfg ca_cert

  unfoldable pub add_identity :
      Option (List ℕ) → Option (List ℕ) → ClientTlsConfig → ClientTlsConfig
  add_identity (some cert) (some key) cfg = identity cfg cert key
  add_identity (some cert) none cfg = cfg
  add_identity none (some key) cfg = cfg
  add_identity none none cfg = cfg

  unfoldable pub add_domain : Option String → ClientTlsConfig → ClientTlsConfig
  add_domain none cfg = cfg
  add_domain (some domain) cfg = set_domain_name cfg domain

  unfoldable pub build_client_tls_config : TlsConfig → ClientTlsConfig
  unfolding add_ca add_identity add_domain
  build_client_tls_config self =
      add_domain self.domain_name
        (add_identity self.client_cert self.client_key (add_ca self.ca_cert with_native_roots))
