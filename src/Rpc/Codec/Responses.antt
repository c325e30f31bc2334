-- ===== src/Rpc/Codec/Responses.antt =====
-- rpc/codec/: responses that are cut, and responses that SSZ does not read.
use cl_p2p_setup.Base.{
  ◌⊎◌, inl, inr, ◌<◌, ap, ◌∙◌, subst, drop, ℕ, ◌≤◌, ◌≡◌, refl, none, some, [], ◌∷◌, ◌++◌, length,
  length-append, arith,
}
use cl_p2p_setup.Base.Swarm.{ok, err}
use cl_p2p_setup.Base.Machine.{returns, panics}
use cl_p2p_setup.Rpc.Methods.{RpcResponse, success}
use cl_p2p_setup.Rpc.Protocol.{meta_data, ProtocolId, RpcError, max_rpc_size_post_merge}
use cl_p2p_setup.Rpc.Codec.{Bytes, Wire}
use cl_p2p_setup.Rpc.Codec.SszSnappy
use cl_p2p_setup.Rpc.Codec.SszSnappy.{
  SszSnappyCodec, response_bytes, coded_bytes, encode_response, handle_response, unwrapped,
  decode_response, decode_with, decode_error, decode_from, out_of_limits, finish_error,
}
use cl_p2p_setup.Rpc.Codec.Base.{
  OutboundCodec, new_outbound, decode_coded, decode_base_response, outbound_decode,
}
use cl_p2p_setup.Rpc.Codec.Laws.{WireLaws}
use mathlib.Core.List.{append_assoc}
use cl_p2p_setup.Rpc.Codec.Payload.{
  payload, decode_with-payload, decode_with-cut, decode_with-short,
}
use cl_p2p_setup.Rpc.Codec.RoundTrip.{
  response_protocol, IsRead, decode_base_response-code, decode_coded-success, payload_size,
  in_bounds, out_of_limits-response,
}

abbrev head : ℕ → Bytes → ℕ
head default [] = default
head default (x ∷ bytes) = x

-- Where a cut of two pieces lies.
cut_of_append :
    (a b front back : Bytes) (x : ℕ)
    → a ++ b ≡ front ++ x ∷ back
    → ((end : Bytes) × (a ≡ front ++ x ∷ end))
      ⊎ ((more : Bytes) × (front ≡ a ++ more) × (b ≡ more ++ x ∷ back))
cut_of_append [] b front back x h = inr (front, refl, h)
cut_of_append (y ∷ a) b [] back x h = inl (a, rw (ap (head y) h) refl)
cut_of_append (y ∷ a) b (z ∷ front) back x h =
    elim (cut_of_append a b front back x (ap (drop 1) h)) [
      | inl (end, e) ↦ inl (end, rw (ap (head y) h, e) refl)
      | inr (more, e, f) ↦ inr (more, rw (ap (head y) h, e) refl, f)
    ]

module _ (wire : Wire) where
  -- With the code known, nothing is taken off.
  decode_base_response-coded :
      (protocol : ProtocolId) (src : Bytes)
      → 2 ≤ length src
      → decode_base_response wire
          (record { inner = SszSnappy.new protocol; current_response_code = some 0 })
          src
        ≡ decode_coded wire (SszSnappy.new protocol) 0 src
  unfolding decode_base_response
  decode_base_response-coded protocol [] h = ground arith
  decode_base_response-coded protocol (y ∷ []) h = ground arith
  decode_base_response-coded protocol (y ∷ x ∷ src) h = refl

module _ {wire : Wire} (laws : WireLaws wire) where
  -- Nothing but the end of the frames is missing.
  outbound_decode-cut_frames :
      (protocol : ProtocolId) (r : RpcResponse) (front back : Bytes) (x : ℕ)
      → protocol.message_name ≡ response_protocol r
      → IsRead wire r
      → length (response_bytes wire r) ≤ max_rpc_size_post_merge
      → laws.frames (response_bytes wire r) ≡ front ++ x ∷ back
      → (codec : OutboundCodec) × (outbound_decode wire
            (new_outbound protocol)
            (0 ∷ laws.varint (length (response_bytes wire r)) ++ front)
          ≡ returns (codec, front, err RpcError.error))
  unfolding new_outbound decode_coded decode_response decode_from SszSnappy.new
  outbound_decode-cut_frames protocol r front back x e h size c = (
    OutboundCodec.ssz_snappy (record {
      inner = record { protocol = protocol; len = some (length (response_bytes wire r)) };
      current_response_code = some 0;
    }),
    rw
        (
          decode_base_response-code wire protocol 0
              (laws.varint (length (response_bytes wire r)) ++ front)
              (omega (
                arith,
                size,
                laws.varint_size (length (response_bytes wire r)) (omega (arith, size)),
                length-append (laws.varint (length (response_bytes wire r))) front,
              )),
          decode_with-cut laws (out_of_limits wire protocol)
              (handle_response wire protocol.message_name) protocol (response_bytes wire r) front
              back x size (out_of_limits-response wire protocol r e h size) c,
        )
        refl,
  )

  -- The codec has the code of a response, and a part of its length.
  abbrev coded : ProtocolId → OutboundCodec
  coded protocol =
      OutboundCodec.ssz_snappy
        (record { inner = SszSnappy.new protocol; current_response_code = some 0 })

  outbound_decode-cut_length :
      (protocol : ProtocolId) (r : RpcResponse) (y x : ℕ) (front back : Bytes)
      → length (response_bytes wire r) ≤ max_rpc_size_post_merge
      → laws.varint (length (response_bytes wire r)) ≡ (y ∷ front) ++ x ∷ back
      → outbound_decode wire (new_outbound protocol) (0 ∷ y ∷ front)
        ≡ returns (coded protocol, y ∷ front, ok none)
  unfolding new_outbound decode_coded decode_response decode_from SszSnappy.new
  outbound_decode-cut_length protocol r y x front back size c =
      rw
        (
          decode_base_response-code wire protocol 0 (y ∷ front) (omega arith),
          decode_with-short laws (out_of_limits wire protocol)
              (handle_response wire protocol.message_name) protocol (response_bytes wire r)
              (y ∷ front) back x size c,
        )
        refl

  outbound_decode-coded :
      (protocol : ProtocolId) (r : RpcResponse) (y x : ℕ) (front back rest : Bytes)
      → protocol.message_name ≡ response_protocol r
      → IsRead wire r
      → length (response_bytes wire r) ≤ max_rpc_size_post_merge
      → payload laws (response_bytes wire r) ≡ (y ∷ front) ++ x ∷ back
      → outbound_decode wire (coded protocol) ((y ∷ front) ++ (x ∷ back ++ rest))
        ≡ returns (new_outbound protocol, rest, ok (some (success r)))
  unfolding new_outbound
  outbound_decode-coded protocol r y x front back rest e h size c =
      let long : 2 ≤ length (payload laws (response_bytes wire r) ++ rest) = omega (
        arith,
        ap length c,
        length-append (y ∷ front) (x ∷ back),
        length-append (payload laws (response_bytes wire r)) rest,
      ) in
      let joined : payload laws (response_bytes wire r) ++ rest
          ≡ (y ∷ front) ++ (x ∷ back ++ rest) =
        ap (λ l. l ++ rest) c ∙ append_assoc (y ∷ front) (x ∷ back) rest in
      subst
        (λ src.
          outbound_decode wire (coded protocol) src
          ≡ returns (new_outbound protocol, rest, ok (some (success r))))
        joined
        (rw
          (
            decode_base_response-coded wire protocol (payload laws (response_bytes wire r) ++ rest)
                long,
            decode_coded-success laws protocol r rest e h size,
          )
          refl)

  whole :
      (protocol : ProtocolId) (r : RpcResponse) (src rest : Bytes)
      → protocol.message_name ≡ response_protocol r
      → IsRead wire r
      → length (response_bytes wire r) ≤ max_rpc_size_post_merge
      → 0 ∷ payload laws (response_bytes wire r) ++ rest ≡ src
      → outbound_decode wire (new_outbound protocol) src
        ≡ returns (new_outbound protocol, rest, ok (some (success r)))
  unfolding new_outbound
  whole protocol r src rest e h size c =
      subst
        (λ src.
          outbound_decode wire (new_outbound protocol) src
          ≡ returns (new_outbound protocol, rest, ok (some (success r))))
        c
        (rw
          (
            decode_base_response-code wire protocol 0 (payload laws (response_bytes wire r) ++ rest)
                (payload_size laws (response_bytes wire r) rest size),
            decode_coded-success laws protocol r rest e h size,
          )
          refl)

  -- A response arrives in two pieces, `front` and the rest, which begins with `x`. If the cut is in the
  -- code or in the length, the codec asks for more, and with the rest, and whatever follows, it reads the
  -- response. If the cut is in the frames, or before them, it answers an error.
  pub outbound_decode-cut :
      (protocol : ProtocolId) (r : RpcResponse) (front back : Bytes) (x : ℕ)
      → protocol.message_name ≡ response_protocol r
      → IsRead wire r
      → length (response_bytes wire r) ≤ max_rpc_size_post_merge
      → 0 ∷ payload laws (response_bytes wire r) ≡ front ++ x ∷ back
      → (codec : OutboundCodec) × (left : Bytes) × (((length front
              ≤ length (laws.varint (length (response_bytes wire r))))
            × (outbound_decode wire (new_outbound protocol) front ≡ returns (codec, left, ok none))
            × ((rest : Bytes)
                → outbound_decode wire codec (left ++ (x ∷ back ++ rest))
                  ≡ returns (new_outbound protocol, rest, ok (some (success r)))))
          ⊎ ((length (laws.varint (length (response_bytes wire r))) < length front)
              × (outbound_decode wire (new_outbound protocol) front
                  ≡ returns (codec, left, err RpcError.error))))
  unfolding new_outbound decode_base_response
  outbound_decode-cut protocol r [] back x e h size c = (
    new_outbound protocol,
    [],
    inl (
      omega arith,
      refl,
      λ rest. whole protocol r (x ∷ back ++ rest) rest e h size (ap (λ l. l ++ rest) c),
    ),
  )
  outbound_decode-cut protocol r (z ∷ []) back x e h size c = (
    new_outbound protocol,
    z ∷ [],
    inl (
      laws.varint_size (length (response_bytes wire r)) (omega (arith, size)),
      refl,
      λ rest. whole protocol r (z ∷ x ∷ back ++ rest) rest e h size (ap (λ l. l ++ rest) c),
    ),
  )
  outbound_decode-cut protocol r (z ∷ y ∷ front) back x e h size c =
      let n = length (response_bytes wire r) in
      let code : 0 ≡ z = ap (head 0) c in
      let behind : payload laws (response_bytes wire r) ≡ (y ∷ front) ++ x ∷ back = ap (drop 1) c in
      elim (cut_of_append (laws.varint n) (laws.frames (response_bytes wire r)) (y ∷ front) back x
        behind) [
          | inl (end, f) ↦ (
            coded protocol,
            y ∷ front,
            inl (
              omega (arith, ap length f, length-append (y ∷ front) (x ∷ end)),
              subst
                  (λ z.
                    outbound_decode wire (new_outbound protocol) (z ∷ y ∷ front)
                    ≡ returns (coded protocol, y ∷ front, ok none))
                  code (outbound_decode-cut_length protocol r y x front end size f),
              λ rest. outbound_decode-coded protocol r y x front back rest e h size behind,
            ),
          )
          | inr (more, f, g) ↦
              let joined : 0 ∷ (laws.varint n ++ more) ≡ z ∷ y ∷ front = rw (code, f) refl in
              let (codec, answer) = outbound_decode-cut_frames protocol r more back x e h size g in
              (
                codec,
                more,
                inr (
                  omega (arith, ap length f, length-append (laws.varint n) more),
                  subst
                      (λ src.
                        outbound_decode wire (new_outbound protocol) src
                        ≡ returns (codec, more, err RpcError.error))
                      joined answer,
                ),
              )
        ]

  -- When SSZ does not read the bytes of a metadata response, though they have the right number, the
  -- codec panics.
  pub outbound_decode-panics :
      (protocol : ProtocolId) (bytes rest : Bytes)
      → protocol.message_name ≡ meta_data
      → length bytes ≡ wire.lengths.meta_data_len
      → length bytes ≤ max_rpc_size_post_merge
      → wire.decode_meta_data bytes ≡ none
      → outbound_decode wire (new_outbound protocol) (0 ∷ payload laws bytes ++ rest) ≡ panics
  unfolding new_outbound decode_coded decode_response decode_from SszSnappy.new handle_response
  outbound_decode-panics protocol bytes rest e h size n =
      rw
        (
          decode_base_response-code wire protocol 0 (payload laws bytes ++ rest)
              (payload_size laws bytes rest size),
          decode_with-payload laws (out_of_limits wire protocol)
              (handle_response wire protocol.message_name) protocol bytes rest size
              (rw e (in_bounds wire.lengths.meta_data_len (length bytes) h size)),
          e,
          n,
        )
        refl
