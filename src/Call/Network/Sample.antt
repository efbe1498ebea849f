-- ===== src/Call/Network/Sample.antt =====
-- A concrete network for runs: it has one service, `S.f`, whose methods answer with the length of
-- what they were sent.
use pg_grpc.Common.{ℕ, ◌+◌, String, Option, none, some, [], ◌∷◌, Result, ok, err, ◌>>=◌, string_eq}
use pg_grpc.HashMap
use pg_grpc.Text.{into_bytes}
use pg_grpc.Json.{number}
use pg_grpc.Json.Sample.{sample_numbers}
use pg_grpc.Tls.Tests.{recorder}
use pg_grpc.ChannelCache.Tests.{wire}
use pg_grpc.Proto.Fetch.{Reflection, file_descriptor_response}
use pg_grpc.Extension.Register.Tests.{one_service_each}
use pg_grpc.Call.Metadata.Tests.{codec}
use pg_grpc.Call.Network.{Bytes, Codec, Libraries}

unfoldable pub count : Bytes → ℕ
count [] = 0
count (b ∷ bytes) = 1 + count bytes

-- The server describes itself by the file `f`.
abbrev pub file_f : Reflection one_service_each
file_f = record {
  Bytes = String;
  decode = λ b. ok b;
  server_reflection_info =
      λ version max_decode max_encode name. ok (ok (file_descriptor_response ("f" ∷ [])) ∷ []);
}

-- The answer is the request, encoded and decoded once.
abbrev pub message_of : Option Bytes × Bytes → Result String Bytes
message_of (none, rest) = err "Missing response message"
message_of (some bytes, rest) = ok bytes

abbrev pub exchange : Codec → Bytes → Result String Bytes
exchange c bytes = do sent ← c.encode bytes []; received ← c.decode sent; message_of received

abbrev pub sample_libraries : Libraries
sample_libraries = record {
  numbers = sample_numbers;
  tls = recorder;
  transport = wire;
  descriptors = one_service_each;
  metadata = codec;
  ServiceDescriptor = String;
  MethodDescriptor = String;
  MessageDescriptor = String;
  DynamicMessage = Bytes;
  get_service_by_name = λ pool name. HashMap.get pool name;
  methods = λ s. "L" ∷ "M" ∷ [];
  method_name = λ m. m;
  input = λ m. m;
  output = λ m. m;
  deserialize = λ desc text. ok (into_bytes text);
  encode_to_vec = λ msg. msg;
  decode = λ desc bytes. ok bytes;
  serialize_with_proto_field_names = λ msg. ok msg;
  value_to_json = λ v. ok "json";
  from_slice = λ bytes. ok (number (count bytes));
  PathAndQuery = String;
  parse_path = λ text. ok text;
  Grpc = String × ℕ;
  new_grpc = λ channel. channel;
  max_decoding_message_size = λ g n. g;
  max_encoding_message_size = λ g n. g;
  ready = λ now g. ok tt;
  unary = λ now g bytes md path c. exchange c bytes;
  reflection = λ now channel. file_f;
}
