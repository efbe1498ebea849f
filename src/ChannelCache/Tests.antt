-- ===== src/ChannelCache/Tests.antt =====
-- Runs of the channel cache, and its theorems at concrete inputs.
use pg_grpc.Common.{ℕ, ◌≡◌, refl, String, none, some, ok, err, [], ◌∷◌, string_eq}
use pg_grpc.Common.Keys.{option_eq, pair_eq}
use pg_grpc.Errors.{connection}
use pg_grpc.HashMap
use pg_grpc.Endpoint.{validate_endpoint}
use pg_grpc.Tls.Tests.{recorder}
use pg_grpc.ChannelCache.{Transport, Channels, builder_for, get_or_connect, tls_eq}
use pg_grpc.ChannelCache.Laws.{one_channel, overlapping_calls}

-- A channel is the URL and the time at which it was connected.
abbrev pub wire : Transport recorder
wire = record {
  Channel = String × ℕ;
  Endpoint = String;
  from_shared = λ url. ok url;
  tls_config = λ e cfg. err "no TLS here";
  connect = λ now e. ok (e, now);
}

abbrev url : String
url = "http://h:1"

abbrev at_five : String × ℕ
at_five = (url, 5)

abbrev empty : Channels wire
empty = []

abbrev alone : Channels wire → Channels wire
alone m = m

connects :
    get_or_connect wire 5 alone " h:1" none empty ≡ (ok (url, 5), ((("h:1", none), (url, 5)) ∷ []))
unfolding get_or_connect validate_endpoint builder_for HashMap.get HashMap.or_insert HashMap.insert
connects = refl

fails_tls :
    (get_or_connect wire 5 alone "h:1"
      (some (record { ca_cert = none; client_cert = none; client_key = none; domain_name = none }))
      empty).0
    ≡ err (connection "TLS config: no TLS here")
unfolding get_or_connect validate_endpoint builder_for HashMap.get
fails_tls = refl

trimmed : validate_endpoint " h:1" ≡ ok "h:1"
unfolding validate_endpoint
trimmed = refl

as_it_is : validate_endpoint "h:1" ≡ ok "h:1"
unfolding validate_endpoint
as_it_is = refl

gets_first : (get_or_connect wire 5 alone " h:1" none empty).0 ≡ ok (url, 5)
unfolding get_or_connect validate_endpoint builder_for HashMap.get HashMap.or_insert HashMap.insert
gets_first = refl

abbrev after_first : Channels wire
after_first = (get_or_connect wire 5 alone " h:1" none empty).1

-- Another call connects at 5 and stores its channel, while this one connects at 6.
abbrev meanwhile : Channels wire → Channels wire
meanwhile m = (get_or_connect wire 5 alone " h:1" none m).1

gets_stored : (get_or_connect wire 6 meanwhile "h:1" none empty).0 ≡ ok (url, 5)
unfolding get_or_connect validate_endpoint builder_for HashMap.get HashMap.or_insert HashMap.insert
gets_stored = refl

one_channel_example :
    get_or_connect wire 9 alone "h:1" none after_first ≡ (ok (url, 5), after_first)
one_channel_example =
    one_channel wire 5 9 alone alone " h:1" "h:1" "h:1" none empty after_first (url, 5) trimmed
      as_it_is (λ k ch h. h) gets_first (λ k ch h. h)

overlapping_calls_example : at_five ≡ at_five
overlapping_calls_example =
    overlapping_calls wire 6 5 meanwhile alone "h:1" " h:1" "h:1" none empty (url, 5) (url, 5)
      as_it_is trimmed (λ k ch h. h) gets_first (λ k ch h. h) gets_stored
