-- ===== src/Call/Network.antt =====
-- What src/call.rs uses of prost-reflect, serde_json, http and tonic. An error is its text, and a byte
-- string is the list of its bytes. What a server answers may differ from time to time.
pub mod Sample
use pg_grpc.Common.{ℕ, String, Option, List, Result}
use pg_grpc.Json.{Numbers, Value}
use pg_grpc.Tls.Build.{TlsBuilder}
use pg_grpc.ChannelCache.{Transport}
use pg_grpc.Proto.{Descriptors}
use pg_grpc.Proto.Fetch.{Reflection}
use pg_grpc.Call.Metadata.{MetadataCodec, MetadataMap}

abbrev pub Bytes : Type 0
Bytes = List ℕ

-- `tonic::codec::Codec` at byte strings: `encode` appends to a buffer, and `decode` takes a message, if
-- there is one, and leaves the rest of its buffer.
pub record Codec : Type 0 where
  pub encode : Bytes → Bytes → Result String Bytes
  pub decode : Bytes → Result String (Option Bytes × Bytes)

-- The types and the functions of the four libraries, by their names there.
pub record Libraries : Type 1 where
  pub numbers : Numbers
  pub tls : TlsBuilder
  pub transport : Transport tls
  pub descriptors : Descriptors
  pub metadata : MetadataCodec
  -- prost-reflect
  pub ServiceDescriptor : Type 0
  pub MethodDescriptor : Type 0
  pub MessageDescriptor : Type 0
  pub DynamicMessage : Type 0
  pub get_service_by_name : descriptors.DescriptorPool → String → Option ServiceDescriptor
  pub methods : ServiceDescriptor → List MethodDescriptor
  pub method_name : MethodDescriptor → String
  pub input : MethodDescriptor → MessageDescriptor
  pub output : MethodDescriptor → MessageDescriptor
  pub deserialize : MessageDescriptor → String → Result String DynamicMessage
  pub encode_to_vec : DynamicMessage → Bytes
  pub decode : MessageDescriptor → Bytes → Result String DynamicMessage
  pub serialize_with_proto_field_names : DynamicMessage → Result String Bytes
  -- serde_json
  pub value_to_json : Value numbers.N → Result String String
  pub from_slice : Bytes → Result String (Value numbers.N)
  -- http
  pub PathAndQuery : Type 0
  pub parse_path : String → Result String PathAndQuery
  -- tonic
  pub Grpc : Type 0
  pub new_grpc : transport.Channel → Grpc
  pub max_decoding_message_size : Grpc → ℕ → Grpc
  pub max_encoding_message_size : Grpc → ℕ → Grpc
  pub ready : ℕ → Grpc → Result String (Unit {0})
  pub unary :
      ℕ → Grpc → Bytes → MetadataMap numbers metadata → PathAndQuery → Codec → Result String Bytes
  pub reflection : ℕ → transport.Channel → Reflection descriptors
