-- ===== src/Rpc/Codec/RoundTrip.antt =====
-- rpc/codec/: a response that one node writes and the other reads.
use cl_p2p_setup.Base.{
  ℕ, ◌≤◌, ◌≡◌, refl, ap, false, none, some, [], ◌∷◌, ◌++◌, length, length-append, ltb, arith,
}
use cl_p2p_setup.Base.Swarm.{ok}
use cl_p2p_setup.Base.Machine.{returns}
use cl_p2p_setup.Rpc.Methods.{RpcResponse, RpcCodedResponse, success, error}
use cl_p2p_setup.Rpc.Protocol.{
  Protocol, status, ping, meta_data, ProtocolId, limits_of, is_out_of_bounds,
  max_rpc_size_post_merge,
}
use cl_p2p_setup.Rpc.Codec.{Bytes, Wire}
use cl_p2p_setup.Rpc.Codec.SszSnappy
use cl_p2p_setup.Rpc.Codec.SszSnappy.{
  SszSnappyCodec, response_bytes, coded_bytes, encode_response, handle_response, decode_response,
  decode_error, decode_from, out_of_limits, finish_error,
}
use cl_p2p_setup.Rpc.Codec.Base.{
  BaseOutboundCodec, InboundCodec, new_outbound, encode_base, decode_coded, decode_base_response,
  inbound_encode, outbound_decode,
}
use cl_p2p_setup.Rpc.Codec.Laws.{WireLaws}
use cl_p2p_setup.Rpc.Codec.Payload.{payload, write_payload-fits, decode_with-payload}

-- The protocol on whose streams a response is sent.
abbrev pub response_protocol : RpcResponse → Protocol
response_protocol (RpcResponse.status m) = status
response_protocol (RpcResponse.pong m) = ping
response_protocol (RpcResponse.meta_data m) = meta_data

-- SSZ reads the response back, and its size is the fixed one.
abbrev pub IsRead : Wire → RpcResponse → Type 0
IsRead wire (RpcResponse.status m) =
    (wire.decode_status (wire.encode_status m) ≡ some m)
    × (length (wire.encode_status m) ≡ wire.lengths.status_len)
IsRead wire (RpcResponse.pong m) =
    (wire.decode_u64 (wire.encode_u64 m.payload) ≡ some m.payload)
    × (length (wire.encode_u64 m.payload) ≡ wire.lengths.ping_len)
IsRead wire (RpcResponse.meta_data m) =
    (wire.decode_meta_data (wire.encode_meta_data m) ≡ some m)
    × (length (wire.encode_meta_data m) ≡ wire.lengths.meta_data_len)

pub in_bounds :
    (n size : ℕ)
    → size ≡ n
    → size ≤ max_rpc_size_post_merge
    → is_out_of_bounds (limits_of n) size max_rpc_size_post_merge ≡ false
unfolding is_out_of_bounds
in_bounds n size e h = ground arith

module _ (wire : Wire) where
  pub out_of_limits-response :
      (protocol : ProtocolId) (r : RpcResponse)
      → protocol.message_name ≡ response_protocol r
      → IsRead wire r
      → length (response_bytes wire r) ≤ max_rpc_size_post_merge
      → out_of_limits wire protocol (length (response_bytes wire r)) ≡ false
  out_of_limits-response protocol (RpcResponse.status m) e h size =
      rw e (in_bounds wire.lengths.status_len _ h.1 size)
  out_of_limits-response protocol (RpcResponse.pong m) e h size =
      rw e (in_bounds wire.lengths.ping_len _ h.1 size)
  out_of_limits-response protocol (RpcResponse.meta_data m) e h size =
      rw e (in_bounds wire.lengths.meta_data_len _ h.1 size)

  handle_response-response :
      (name : Protocol) (r : RpcResponse)
      → name ≡ response_protocol r
      → IsRead wire r
      → handle_response wire name (response_bytes wire r) ≡ returns (ok (some r))
  unfolding handle_response
  handle_response-response name (RpcResponse.status m) e h = rw (e, handle_response, h.0) refl
  handle_response-response name (RpcResponse.pong m) e h = rw (e, handle_response, h.0) refl
  handle_response-response name (RpcResponse.meta_data m) e h = rw (e, handle_response, h.0) refl

  abbrev pub fresh : ProtocolId → BaseOutboundCodec
  fresh protocol = record { inner = SszSnappy.new protocol; current_response_code = none }

  -- With a byte behind it, the code is taken off.
  pub decode_base_response-code :
      (protocol : ProtocolId) (code : ℕ) (src : Bytes)
      → 1 ≤ length src
      → decode_base_response wire (fresh protocol) (code ∷ src)
        ≡ decode_coded wire (SszSnappy.new protocol) code src
  unfolding decode_base_response
  decode_base_response-code protocol code [] h = ground arith
  decode_base_response-code protocol code (x ∷ src) h = refl

-- A response belongs to the protocol, is within the limit on messages, and SSZ reads it back from its
-- fixed size; and for an error SSZ reads the empty list.
abbrev pub IsSendable : Wire → ProtocolId → RpcCodedResponse → Type 0
IsSendable wire protocol (success r) =
    (protocol.message_name ≡ response_protocol r)
    × IsRead wire r
    × (length (response_bytes wire r) ≤ max_rpc_size_post_merge)
IsSendable wire protocol error = wire.decode_error_list [] ≡ some []

finish_error-empty :
    (wire : Wire)
    → wire.decode_error_list [] ≡ some []
    → finish_error wire [] ≡ returns (ok (some []))
finish_error-empty wire e = rw (e, finish_error) refl

module _ {wire : Wire} (laws : WireLaws wire) where
  pub payload_size :
      (bytes rest : Bytes)
      → length bytes ≤ max_rpc_size_post_merge
      → 1 ≤ length (payload laws bytes ++ rest)
  payload_size bytes rest h = omega (
    arith,
    laws.varint_size (length bytes) (omega (arith, h)),
    length-append (laws.varint (length bytes)) (laws.frames bytes),
    length-append (payload laws bytes) rest,
  )

  pub decode_coded-success :
      (protocol : ProtocolId) (r : RpcResponse) (rest : Bytes)
      → protocol.message_name ≡ response_protocol r
      → IsRead wire r
      → length (response_bytes wire r) ≤ max_rpc_size_post_merge
      → decode_coded wire (SszSnappy.new protocol) 0 (payload laws (response_bytes wire r) ++ rest)
        ≡ returns (fresh wire protocol, rest, ok (some (success r)))
  unfolding decode_coded decode_response decode_from SszSnappy.new
  decode_coded-success protocol r rest e h size =
      rw
        (
          decode_with-payload laws (out_of_limits wire protocol)
              (handle_response wire protocol.message_name) protocol (response_bytes wire r) rest
              size (out_of_limits-response wire protocol r e h size),
          handle_response-response wire protocol.message_name r e h,
        )
        refl

  pub outbound_decode-success :
      (codec : InboundCodec) (dst : Bytes) (protocol : ProtocolId) (r : RpcResponse)
      → protocol.message_name ≡ response_protocol r
      → IsRead wire r
      → length (response_bytes wire r) ≤ max_rpc_size_post_merge
      → (bytes : Bytes) × (inbound_encode wire codec (success r) dst ≡ returns (bytes, ok tt))
        × ((rest : Bytes)
            → outbound_decode wire (new_outbound protocol) (bytes ++ rest)
              ≡ returns (new_outbound protocol, rest, ok (some (success r))))
  unfolding encode_base encode_response new_outbound
  outbound_decode-success (InboundCodec.ssz_snappy codec) dst protocol r e h size = (
    0 ∷ payload laws (response_bytes wire r),
    ap returns (write_payload-fits laws (response_bytes wire r) (0 ∷ []) size),
    λ rest.
        rw
          (
            decode_base_response-code wire protocol 0 (payload laws (response_bytes wire r) ++ rest)
                (payload_size (response_bytes wire r) rest size),
            decode_coded-success protocol r rest e h size,
          )
          refl,
  )

  outbound_decode-error :
      (codec : InboundCodec) (dst : Bytes) (protocol : ProtocolId)
      → wire.decode_error_list [] ≡ some []
      → (bytes : Bytes) × (inbound_encode wire codec error dst ≡ returns (bytes, ok tt))
        × ((rest : Bytes)
            → outbound_decode wire (new_outbound protocol) (bytes ++ rest)
              ≡ returns (new_outbound protocol, rest, ok (some error)))
  unfolding encode_base encode_response new_outbound decode_coded decode_error decode_from
      SszSnappy.new
  outbound_decode-error (InboundCodec.ssz_snappy codec) dst protocol e = (
    4 ∷ payload laws [],
    ap returns (write_payload-fits laws [] (4 ∷ []) (omega arith)),
    λ rest.
        rw
          (
            decode_base_response-code wire protocol 4 (payload laws [] ++ rest)
                (payload_size [] rest (omega arith)),
            decode_with-payload laws (ltb max_rpc_size_post_merge) (finish_error wire) protocol []
                rest (omega arith) refl,
            finish_error-empty wire e,
          )
          refl,
  )

  -- What the codec of an inbound stream is given to send, a response or an error, is written whole,
  -- whatever the buffer held; and the codec of an outbound stream of the protocol, fresh, reads it back,
  -- is fresh again, and leaves what follows. A response must be one of the protocol, within the limit,
  -- and SSZ must read it back.
  pub outbound_decode-inbound_encode :
      (codec : InboundCodec) (dst : Bytes) (protocol : ProtocolId) (item : RpcCodedResponse)
      → IsSendable wire protocol item
      → (bytes : Bytes) × (inbound_encode wire codec item dst ≡ returns (bytes, ok tt))
        × ((rest : Bytes)
            → outbound_decode wire (new_outbound protocol) (bytes ++ rest)
              ≡ returns (new_outbound protocol, rest, ok (some item)))
  outbound_decode-inbound_encode codec dst protocol (success r) (e, h, size) =
      outbound_decode-success codec dst protocol r e h size
  outbound_decode-inbound_encode codec dst protocol error h =
      outbound_decode-error codec dst protocol h
