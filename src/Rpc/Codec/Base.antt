-- ===== src/Rpc/Codec/Base.antt =====
-- rpc/codec/base.rs and rpc/codec/mod.rs: the codecs with the response code. The enums of mod.rs have
-- one constructor, and pass each call on.
use cl_p2p_setup.Base.{ℕ, Option, none, some, [], ◌∷◌, if◌then◌else◌}
use cl_p2p_setup.Base.Swarm.{Result, ok, err}
use cl_p2p_setup.Base.Machine.{Outcome, returns, panics, ◌>>=◌}
use cl_p2p_setup.Rpc.Methods.{RpcCodedResponse, success, error, as_u8, is_response}
use cl_p2p_setup.Rpc.Protocol.{ProtocolId, RpcError}
use cl_p2p_setup.Rpc.Inbound.{InboundRequest}
use cl_p2p_setup.Rpc.Outbound.{OutboundRequest}
use cl_p2p_setup.Rpc.Codec.{Bytes, Wire, Encoded, Decoded}
use cl_p2p_setup.Rpc.Codec.SszSnappy
use cl_p2p_setup.Rpc.Codec.SszSnappy.{
  SszSnappyCodec, encode_response, encode_request, decode_request, decode_response, decode_error,
}

pub record BaseInboundCodec : Type 0 where
  pub inner : SszSnappyCodec

pub record BaseOutboundCodec : Type 0 where
  pub inner : SszSnappyCodec
  pub current_response_code : Option ℕ

pub data InboundCodec : Type 0 where
  ssz_snappy : BaseInboundCodec → InboundCodec

pub data OutboundCodec : Type 0 where
  ssz_snappy : BaseOutboundCodec → OutboundCodec

unfoldable pub new_inbound : ProtocolId → InboundCodec
new_inbound protocol = InboundCodec.ssz_snappy (record { inner = SszSnappy.new protocol })

unfoldable pub new_outbound : ProtocolId → OutboundCodec
new_outbound protocol =
    OutboundCodec.ssz_snappy
      (record { inner = SszSnappy.new protocol; current_response_code = none })

-- `Result::map` and `Option::map` of an answer.
abbrev pub map_item :
    {A B : Type 0} → (A → B) → Result (Option A) RpcError → Result (Option B) RpcError
map_item f (err e) = err e
map_item f (ok none) = ok none
map_item f (ok (some a)) = ok (some (f a))

-- The code after an answer: `None` after an item.
abbrev pub code_after : {A : Type 0} → Result (Option A) RpcError → ℕ → Option ℕ
code_after (ok (some item)) code = none
code_after _ code = some code

module _ (wire : Wire) where
  -- `encode` of the base codec for inbound streams, for the codec it has within: what was in `dst` goes.
  unfoldable pub encode_base : RpcCodedResponse → Bytes → Outcome Encoded
  encode_base item dst = elim (as_u8 item) [
    | none ↦ panics
    | some code ↦ returns (encode_response wire item (code ∷ []))
  ]

  unfoldable pub decode_base : BaseInboundCodec → Bytes → Decoded BaseInboundCodec InboundRequest
  decode_base codec src = decode_request wire codec.inner src >>= λ (inner, rest, item).
      returns (record { inner = inner }, rest, item)

  abbrev pub base_encode_request : OutboundRequest → Bytes → Encoded
  base_encode_request item dst = encode_request wire item dst

  -- The rest of `decode`, with the response code known.
  unfoldable pub decode_coded :
      SszSnappyCodec → ℕ → Bytes → Decoded BaseOutboundCodec RpcCodedResponse
  decode_coded inner code src =
      (if is_response code
        then (decode_response wire inner src >>= λ (inner', rest, item).
            returns (inner', rest, map_item success item))
        else (decode_error wire inner src >>= λ (inner', rest, item).
            returns (inner', rest, map_item (λ message. error) item)))
      >>= λ (inner', rest, item).
          returns
            (record { inner = inner'; current_response_code = code_after item code }, rest, item)

  unfoldable pub decode_base_response :
      BaseOutboundCodec → Bytes → Decoded BaseOutboundCodec RpcCodedResponse
  decode_base_response codec [] = returns (codec, [], ok none)
  decode_base_response codec (byte ∷ []) = returns (codec, byte ∷ [], ok none)
  decode_base_response codec (byte ∷ next ∷ src) = elim codec.current_response_code [
    | none ↦ decode_coded codec.inner byte (next ∷ src)
    | some code ↦ decode_coded codec.inner code (byte ∷ next ∷ src)
  ]

  -- The enums of mod.rs.
  abbrev pub inbound_encode : InboundCodec → RpcCodedResponse → Bytes → Outcome Encoded
  inbound_encode (InboundCodec.ssz_snappy codec) item dst = encode_base item dst

  abbrev pub inbound_decode : InboundCodec → Bytes → Decoded InboundCodec InboundRequest
  inbound_decode (InboundCodec.ssz_snappy codec) src =
      decode_base codec src >>= λ (codec', rest, item).
      returns (InboundCodec.ssz_snappy codec', rest, item)

  abbrev pub outbound_encode : OutboundCodec → OutboundRequest → Bytes → Encoded
  outbound_encode (OutboundCodec.ssz_snappy codec) item dst = base_encode_request item dst

  abbrev pub outbound_decode : OutboundCodec → Bytes → Decoded OutboundCodec RpcCodedResponse
  outbound_decode (OutboundCodec.ssz_snappy codec) src =
      decode_base_response codec src >>= λ (codec', rest, item).
      returns (OutboundCodec.ssz_snappy codec', rest, item)
