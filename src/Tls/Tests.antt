-- ===== src/Tls/Tests.antt =====
-- Runs of the TLS parser, and its theorems at concrete inputs.
use pg_grpc.Common.{ℕ, ◌≡◌, ◌↔◌, refl, inl, none, some, ok, err, List, [], ◌∷◌, ◌++◌}
use pg_grpc.Text.{into_bytes}
use pg_grpc.Errors.{connection}
use pg_grpc.Json.{Value, string, object, end, field}
use pg_grpc.Tls.{TlsConfig, parse}
use pg_grpc.Tls.Laws.{IsTlsValue, parse_tls_iff}
use pg_grpc.Tls.Build.{TlsBuilder, build_client_tls_config, add_ca, add_domain}
use pg_grpc.Tls.Credentials.{build_keeps_identity}

abbrev mutual_tls : Value ℕ
mutual_tls = object (field "client_cert" (string "C") (field "client_key" (string "K") end))

abbrev settings : TlsConfig
settings = record {
  ca_cert = none;
  client_cert = some (b'C' ∷ []);
  client_key = some (b'K' ∷ []);
  domain_name = none;
}

accepts_pair : parse mutual_tls ≡ ok settings
unfolding parse
accepts_pair = refl

refuses_cert_alone :
    parse {N = ℕ} (object (field "client_cert" (string "C") end))
    ≡ err (connection "tls: client_cert requires client_key")
unfolding parse
refuses_cert_alone = refl

parse_tls_iff_example : (parse mutual_tls ≡ ok settings) ↔ IsTlsValue mutual_tls settings
parse_tls_iff_example = parse_tls_iff mutual_tls settings

-- A builder that records the texts it is given.
abbrev pub recorder : TlsBuilder
recorder = record {
  ClientTlsConfig = List (List ℕ);
  with_native_roots = [];
  ca_certificate = λ c ca. c ++ ca ∷ [];
  identity = λ c cert key. c ++ cert ∷ key ∷ [];
  set_domain_name = λ c name. c ++ into_bytes name ∷ [];
}

build_keeps_identity_example :
    (cert : List ℕ) × (key : List ℕ) × (settings.client_cert ≡ some cert)
    × (settings.client_key ≡ some key)
    × (build_client_tls_config recorder settings
        ≡ add_domain recorder none (recorder.identity (add_ca recorder none []) cert key))
build_keeps_identity_example =
    build_keeps_identity recorder mutual_tls settings accepts_pair (inl (λ e. cc))
