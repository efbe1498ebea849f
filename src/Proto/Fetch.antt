-- ===== src/Proto/Fetch.antt =====
-- `fetch_pool` of src/proto.rs, with the function that `define_fetch!` makes: the descriptors of a
-- service, from the server's reflection.
pub mod Laws
mod Tests
use pg_grpc.Common.{
  ℕ, ℤ, String, Bool, Option, List, [], ◌∷◌, Result, ok, err, ◌>>=◌, ◌>>◌, fail_if, map_err,
}
use pg_grpc.Text.{◌⧺◌, display_int}
use pg_grpc.Errors.{GrpcError, GrpcResult, proto}
use pg_grpc.Proto.{Descriptors, is_nil, backfill_wkts}

-- `tonic::Status`, with the codes that the program names.
pub data Code : Type 0 where
  unimplemented internal other_code : Code

pub record Status : Type 0 where
  pub code : Code
  pub message : String

abbrev pub internal_status : String → Status
internal_status message = record { code = internal; message = message }

-- The two versions of the reflection service.
pub data Version : Type 0 where
  v1 v1alpha : Version

-- The responses of the stream, by what they hold.
pub data MessageResponse (Bytes : Type 0) : Type 0 where
  file_descriptor_response : List Bytes → MessageResponse Bytes
  error_response : ℤ → String → MessageResponse Bytes
  other_response : MessageResponse Bytes

-- The reflection client over a channel: what a request for a symbol yields, under the limits on
-- decoded and encoded messages. A stream ends at its end or at its first error.
pub record Reflection (d : Descriptors) : Type 1 where
  pub Bytes : Type 0
  pub decode : Bytes → Result String d.FileDescriptorProto
  pub server_reflection_info :
      Version
      → Option ℕ
      → Option ℕ
      → String
      → Result Status (List (Result Status (MessageResponse Bytes)))

module _ {d : Descriptors} (r : Reflection d) where
  unfoldable pub add_decoded : d.DescriptorPool → List r.Bytes → Result Status d.DescriptorPool
  add_decoded pool [] = ok pool
  add_decoded pool (bytes ∷ rest) = do
    fdp ← map_err (λ e. internal_status ("decode FileDescriptorProto: " ⧺ e)) (r.decode bytes)
    next ←
        map_err (λ e. internal_status ("add to descriptor pool: " ⧺ e))
          (d.add_file_descriptor_proto pool fdp)
    add_decoded next rest

  unfoldable pub take_message :
      d.DescriptorPool → MessageResponse r.Bytes → Result Status d.DescriptorPool
  take_message pool (file_descriptor_response files) = add_decoded pool files
  take_message pool (error_response code message) =
      err (internal_status ("reflection error (code " ⧺ display_int code ⧺ "): " ⧺ message))
  take_message pool other_response = ok pool

  -- The loop over the stream.
  unfoldable pub read_stream :
      d.DescriptorPool
      → List (Result Status (MessageResponse r.Bytes))
      → Result Status d.DescriptorPool
  read_stream pool [] = ok pool
  read_stream pool (msg ∷ stream) = do m ← msg; next ← take_message pool m; read_stream next stream

  -- `fetch_v1` and `fetch_v1alpha`.
  unfoldable pub fetch : Version → String → Option ℕ → Option ℕ → Result Status d.DescriptorPool
  fetch version service_name max_decode max_encode = do
    resp_stream ← r.server_reflection_info version max_decode max_encode service_name
    pool ← read_stream d.new_pool resp_stream
    fail_if (is_nil (d.services pool))
        (internal_status ("reflection returned no descriptors for service: " ⧺ service_name))
    ok pool

  -- The second try, if the server has not implemented the first.
  unfoldable pub fall_back :
      Result Status d.DescriptorPool
      → Result Status d.DescriptorPool
      → Result Status d.DescriptorPool
  fall_back (ok pool) second = ok pool
  fall_back (err s) second = elim s.code [
    | unimplemented ↦ second
    | internal ↦ err s
    | other_code ↦ err s
  ]

  unfoldable pub fetch_pool : String → Option ℕ → Option ℕ → GrpcResult d.DescriptorPool
  fetch_pool service_name max_decode max_encode = do
    pool ←
        map_err (λ s. proto ("reflection: " ⧺ s.message))
          (fall_back (fetch v1 service_name max_decode max_encode)
            (fetch v1alpha service_name max_decode max_encode))
    backfill_wkts d pool
