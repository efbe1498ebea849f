-- ===== src/Call/Messages.antt =====
-- `resolve_method`, `encode_request` and `decode_response` of src/call.rs.
pub mod Laws
mod Tests
use pg_grpc.Common.{
  String, Option, none, some, List, [], ◌∷◌, Result, ok, err, ◌>>=◌, map_err, ok_or, ◌==◌,
  string_eq, if◌then◌else◌,
}
use pg_grpc.Text.{◌⧺◌}
use pg_grpc.Errors.{GrpcResult, proto}
use pg_grpc.Json.{Value}
use pg_grpc.Call.Network.{Bytes, Libraries}

module _ (lib : Libraries) where
  -- `Iterator::find` by the name of a method.
  unfoldable pub find_method : String → List lib.MethodDescriptor → Option lib.MethodDescriptor
  find_method method_name [] = none
  find_method method_name (m ∷ methods) =
      if lib.method_name m == method_name then some m else find_method method_name methods

  unfoldable pub resolve_method :
      lib.descriptors.DescriptorPool → String → String → GrpcResult lib.MethodDescriptor
  resolve_method pool service_name method_name = do
    svc ←
        ok_or (lib.get_service_by_name pool service_name)
          (proto ("service not found: " ⧺ service_name))
    ok_or (find_method method_name (lib.methods svc)) (proto ("method not found: " ⧺ method_name))

  unfoldable pub encode_request : lib.MessageDescriptor → Value lib.numbers.N → GrpcResult Bytes
  encode_request desc json = do
    json_str ← map_err (λ e. proto ("serialize request: " ⧺ e)) (lib.value_to_json json)
    msg ← map_err (λ e. proto ("encode request: " ⧺ e)) (lib.deserialize desc json_str)
    ok (lib.encode_to_vec msg)

  unfoldable pub decode_response : lib.MessageDescriptor → Bytes → GrpcResult (Value lib.numbers.N)
  decode_response desc bytes = do
    msg ← map_err (λ e. proto ("decode response: " ⧺ e)) (lib.decode desc bytes)
    buf ←
        map_err (λ e. proto ("serialize response: " ⧺ e)) (lib.serialize_with_proto_field_names msg)
    map_err (λ e. proto ("parse serialized response: " ⧺ e)) (lib.from_slice buf)
