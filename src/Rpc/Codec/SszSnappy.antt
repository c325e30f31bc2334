-- ===== src/Rpc/Codec/SszSnappy.antt =====
-- rpc/codec/ssz_snappy.rs: a length as a varint, and the SSZ bytes in snappy frames.
use cl_p2p_setup.Base.{
  ℕ, Bool, true, false, Option, none, some, [], ◌++◌, length, take, drop, is_empty, ltb, leb,
  if◌then◌else◌,
}
use cl_p2p_setup.Base.Swarm.{Result, ok, err}
use cl_p2p_setup.Base.Machine.{Outcome, returns, panics, ◌>>=◌}
use cl_p2p_setup.Rpc.Methods.{RpcResponse, RpcCodedResponse, success, error}
use cl_p2p_setup.Rpc.Protocol.{
  Protocol, status, ping, meta_data, ProtocolId, RpcError, is_out_of_bounds, rpc_response_limits,
  max_rpc_size_post_merge,
}
use cl_p2p_setup.Rpc.Inbound.{InboundRequest}
use cl_p2p_setup.Rpc.Outbound.{OutboundRequest}
use cl_p2p_setup.Rpc.Codec.{Bytes, Wire, Encoded, Decoded}

-- Both codecs have these fields. `len` is the length that was read for a payload still to come.
pub record SszSnappyCodec : Type 0 where
  pub protocol : ProtocolId
  pub len : Option ℕ

unfoldable pub new : ProtocolId → SszSnappyCodec
new protocol = record { protocol = protocol; len = none }

abbrev pub is_meta_data : Protocol → Bool
is_meta_data meta_data = true
is_meta_data _ = false

-- `BytesMut::split_to`, for what is left; it panics past the end.
unfoldable pub split_to : ℕ → Bytes → Outcome Bytes
split_to n src = if leb n (length src) then returns (drop n src) else panics

module _ (wire : Wire) where
  open wire use {
    lengths, encode_status, decode_status, encode_u64, decode_u64, encode_ping, encode_meta_data,
    decode_meta_data, decode_error_list, put_length, get_length, compress, max_compress_len,
    read_exact,
  }

  -- The end of both encoders: the length and the compressed bytes.
  unfoldable pub write_payload : Bytes → Bytes → Encoded
  write_payload bytes dst =
      if ltb max_rpc_size_post_merge (length bytes)
      then (dst, err RpcError.error)
      else elim (put_length (length bytes)) [
        | err e ↦ (dst, err RpcError.error)
        | ok prefix ↦ elim (compress bytes) [
          | err e ↦ (dst ++ prefix, err RpcError.error)
          | ok frames ↦ (dst ++ (prefix ++ frames), ok tt)
        ]
      ]

  abbrev pub response_bytes : RpcResponse → Bytes
  response_bytes (RpcResponse.status res) = encode_status res
  response_bytes (RpcResponse.pong res) = encode_u64 res.payload
  response_bytes (RpcResponse.meta_data res) = encode_meta_data res

  abbrev pub coded_bytes : RpcCodedResponse → Bytes
  coded_bytes (success response) = response_bytes response
  coded_bytes error = []

  -- `encode` of the codec for inbound streams.
  unfoldable pub encode_response : RpcCodedResponse → Bytes → Encoded
  encode_response item dst = write_payload (coded_bytes item) dst

  -- `encode` of the codec for outbound streams.
  unfoldable pub encode_request : OutboundRequest → Bytes → Encoded
  encode_request (OutboundRequest.status req) dst = write_payload (encode_status req) dst
  encode_request (OutboundRequest.goodbye req) dst = write_payload (encode_u64 req) dst
  encode_request (OutboundRequest.ping req) dst = write_payload (encode_ping req) dst
  encode_request OutboundRequest.meta_data dst = (dst, ok tt)

  -- The length that is kept, the bytes left, and the answer.
  unfoldable pub handle_length : Option ℕ → Bytes → Option ℕ × Bytes × Result (Option ℕ) RpcError
  handle_length (some length) bytes = (some length, bytes, ok (some length))
  handle_length none bytes = elim (get_length bytes) [
    | err e ↦ (none, bytes, err RpcError.error)
    | ok none ↦ (none, bytes, ok none)
    | ok (some (length, rest)) ↦ (some length, rest, ok (some length))
  ]

  -- What a decoder does behind `handle_length`, with its answer: `refuses` is the decoder's test of the
  -- length, and `finish` what it does with the buffer. The three decoders share this.
  unfoldable pub decode_from :
      {Item : Type 0}
      → (refuses : ℕ → Bool) → (finish : Bytes → Outcome (Result (Option Item) RpcError))
      → ProtocolId
      → Option ℕ × Bytes × Result (Option ℕ) RpcError
      → Decoded SszSnappyCodec Item
  decode_from refuses finish protocol (len, rest, err e) =
      returns (record { protocol = protocol; len = len }, rest, err e)
  decode_from refuses finish protocol (len, rest, ok none) =
      returns (record { protocol = protocol; len = len }, rest, ok none)
  decode_from refuses finish protocol (len, rest, ok (some length)) =
      if refuses length
      then returns (record { protocol = protocol; len = len }, rest, err RpcError.error)
      else elim (read_exact (take (max_compress_len length) rest) length) [
        | err e ↦ returns (record { protocol = protocol; len = len }, rest, err RpcError.error)
        | ok (buffer, n) ↦ do
          left ← split_to n rest
          result ← finish buffer
          returns (record { protocol = protocol; len = none }, left, result)
      ]

  abbrev pub decode_with :
      {Item : Type 0}
      → (refuses : ℕ → Bool) → (finish : Bytes → Outcome (Result (Option Item) RpcError))
      → SszSnappyCodec
      → Bytes
      → Decoded SszSnappyCodec Item
  decode_with refuses finish codec src =
      decode_from refuses finish codec.protocol (handle_length codec.len src)

  -- The test of both `decode`s: the limits are those of responses.
  abbrev pub out_of_limits : ProtocolId → ℕ → Bool
  out_of_limits protocol length =
      is_out_of_bounds (rpc_response_limits lengths protocol) length max_rpc_size_post_merge

  abbrev pub finish_request : Protocol → Bytes → Outcome (Result (Option InboundRequest) RpcError)
  finish_request protocol buffer = returns (
      if is_meta_data protocol
      then (if is_empty buffer then ok (some InboundRequest.meta_data) else err RpcError.error)
      else err RpcError.error)

  -- `decode` of the codec for inbound streams.
  unfoldable pub decode_request : SszSnappyCodec → Bytes → Decoded SszSnappyCodec InboundRequest
  decode_request codec src =
      if is_meta_data codec.protocol.message_name
      then returns (codec, src, ok (some InboundRequest.meta_data))
      else decode_with (out_of_limits codec.protocol) (finish_request codec.protocol.message_name)
          codec src

  -- `Option::unwrap` of the item, in `Ok(Some(..))`.
  abbrev pub unwrapped :
      {M : Type 0} → (M → RpcResponse) → Option M → Outcome (Result (Option RpcResponse) RpcError)
  unwrapped wrap none = panics
  unwrapped wrap (some m) = returns (ok (some (wrap m)))

  unfoldable pub handle_response : Protocol → Bytes → Outcome (Result (Option RpcResponse) RpcError)
  handle_response status buffer = unwrapped RpcResponse.status (decode_status buffer)
  handle_response ping buffer =
      unwrapped (λ n. RpcResponse.pong (record { payload = n })) (decode_u64 buffer)
  handle_response meta_data buffer = unwrapped RpcResponse.meta_data (decode_meta_data buffer)
  handle_response _ buffer = returns (err RpcError.error)

  -- `decode` of the codec for outbound streams.
  unfoldable pub decode_response : SszSnappyCodec → Bytes → Decoded SszSnappyCodec RpcResponse
  decode_response codec src =
      decode_with (out_of_limits codec.protocol) (handle_response codec.protocol.message_name) codec
        src

  abbrev pub finish_error : Bytes → Outcome (Result (Option Bytes) RpcError)
  finish_error buffer = elim (decode_error_list buffer) [
    | none ↦ returns (err RpcError.error)
    | some message ↦ returns (ok (some message))
  ]

  unfoldable pub decode_error : SszSnappyCodec → Bytes → Decoded SszSnappyCodec Bytes
  decode_error codec src = decode_with (ltb max_rpc_size_post_merge) finish_error codec src
