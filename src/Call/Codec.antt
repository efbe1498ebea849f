-- ===== src/Call/Codec.antt =====
-- `RawBytesCodec` of src/call.rs: bytes pass through as they are.
use pg_grpc.Common.{some, [], ◌++◌, Result, ok}
use pg_grpc.Common.{String, Option}
use pg_grpc.Call.Network.{Bytes, Codec}

-- `RawEncoder::encode`.
unfoldable pub raw_encode : Bytes → Bytes → Result String Bytes
raw_encode item dst = ok (dst ++ item)

-- `RawDecoder::decode`: an empty frame is a message too.
unfoldable pub raw_decode : Bytes → Result String (Option Bytes × Bytes)
raw_decode src = ok (some src, [])

abbrev pub raw_bytes_codec : Codec
raw_bytes_codec = record { encode = raw_encode; decode = raw_decode }
