-- ===== src/Rpc/Codec/Tests.antt =====
-- The codecs over small libraries, and the theorems there.
use cl_p2p_setup.Base.{
  ◌⊎◌, ◌<◌, lt→not_leb, le→leb, ℕ, zero, suc, ◌≤◌, ◌<◌, ◌≡◌, refl, ap, subst, Bool, true, false,
  Option, none, some, [], ◌∷◌, ◌++◌, length, length-append, take, length-take, leb, if◌then◌else◌,
  arith,
}
use cl_p2p_setup.Base.Swarm.{Result, ok, err}
use cl_p2p_setup.Base.Machine.{returns, panics, usize_mod}
use cl_p2p_setup.Rpc.Methods.{StatusMessage, MetaData, RpcResponse, success}
use cl_p2p_setup.Rpc.Protocol.{
  ProtocolId, RpcError, is_out_of_bounds, new_protocol_id, status, ping, meta_data, v1, v2,
}
use cl_p2p_setup.Rpc.Inbound.{InboundRequest, decoded, upgrade_inbound}
use cl_p2p_setup.Rpc.Codec.{Bytes, Wire}
use cl_p2p_setup.Rpc.Codec.SszSnappy
use cl_p2p_setup.Rpc.Codec.Base.{
  BaseOutboundCodec, InboundCodec, OutboundCodec, new_inbound, new_outbound, decode_base_response,
  decode_coded, decode_base, inbound_encode, inbound_decode, outbound_decode,
}
use cl_p2p_setup.Rpc.Codec.Laws.{WireLaws}
use cl_p2p_setup.Rpc.Codec.RoundTrip.{outbound_decode-inbound_encode}
use cl_p2p_setup.Rpc.Codec.Responses.{outbound_decode-cut, outbound_decode-panics}
use cl_p2p_setup.Rpc.Codec.Items.{IsOfProtocol, outbound_decode-IsOfProtocol}
use cl_p2p_setup.Rpc.Codec.Inbound.{answer, upgrade_inbound-inbound_decode, inbound_decode-returns}

-- A status message has an epoch and a slot, and a metadata message its number, which must be 0.
abbrev status_of : Bytes → Option StatusMessage
status_of (epoch ∷ slot ∷ []) = some (record {
  fork_digest = [];
  finalized_root = [];
  finalized_epoch = epoch;
  head_root = [];
  head_slot = slot;
})
status_of _ = none

abbrev u64_of : Bytes → Option ℕ
u64_of (n ∷ []) = some n
u64_of _ = none

abbrev meta_data_of : Bytes → Option MetaData
meta_data_of (zero ∷ []) = some (record { seq_number = 0; attnets = []; syncnets = [] })
meta_data_of _ = none

abbrev first_byte : Bytes → Result (Option (ℕ × Bytes)) (Unit {0})
first_byte [] = ok none
first_byte (n ∷ rest) = ok (some (n, rest))

-- How far a reader has come.
abbrev come : Result (Bytes × ℕ) (Unit {0}) → ℕ
come (ok (buffer, n)) = n
come (err e) = 0

abbrev read_front : Bytes → ℕ → Result (Bytes × ℕ) (Unit {0})
read_front seen size = if leb size (length seen) then ok (take size seen, size) else err tt

-- A length is one number, and nothing is compressed.
abbrev plain : Wire
plain = record {
  lengths = record { status_len = 2; ping_len = 1; meta_data_len = 1 };
  encode_status = λ m. m.finalized_epoch ∷ m.head_slot ∷ [];
  decode_status = status_of;
  encode_u64 = λ n. n ∷ [];
  decode_u64 = u64_of;
  encode_ping = λ m. m.payload ∷ [];
  encode_meta_data = λ m. m.seq_number ∷ [];
  decode_meta_data = meta_data_of;
  decode_error_list = some;
  put_length = λ n. ok (n ∷ []);
  get_length = first_byte;
  compress = ok;
  max_compress_len = λ n. n;
  read_exact = read_front;
}

take_front :
    (bytes rest : Bytes) (k : ℕ)
    → length bytes ≤ k
    → take (length bytes) (take k (bytes ++ rest)) ≡ bytes
take_front [] rest k h = refl
take_front (x ∷ bytes) rest zero h = ground arith
take_front (x ∷ bytes) rest (suc k) h = ap (◌∷◌ x) (take_front bytes rest k (omega (arith, h)))

plain_laws : WireLaws plain
plain_laws = record {
  varint = λ n. n ∷ [];
  put_is = λ n h. refl;
  varint_size = λ n h. omega arith;
  get_put = λ n rest h. refl;
  get_cut = get_cut;
  frames = λ bytes. bytes;
  compress_is = λ bytes. refl;
  frames_fit = λ bytes h. omega arith;
  read_frames = λ bytes rest k h.
      rw
        (
          le→leb (length bytes) (length (take k (bytes ++ rest)))
              (omega (arith, h, length-take k (bytes ++ rest), length-append bytes rest)),
          take_front bytes rest k h,
        )
        refl;
  read_cut = λ bytes front back x k h.
      rw
        (lt→not_leb (length bytes) (length (take k front))
          (omega (arith, ap length h, length-take k front, length-append front (x ∷ back))))
        refl;
  read_within = read_within;
}
  where
    get_cut :
        (n x : ℕ) (front back : Bytes)
        → n < usize_mod
        → n ∷ [] ≡ front ++ x ∷ back
        → first_byte front ≡ ok none
    get_cut n x [] back h e = refl
    get_cut n x (y ∷ front) back h e =
        absurd (omega (arith, ap length e, length-append front (x ∷ back)))

    read_within :
        (seen buffer : Bytes) (size n : ℕ) → read_front seen size ≡ ok (buffer, n) → n ≤ length seen
    read_within seen buffer size n h = by_cases (leb size (length seen)) refl h
      where
        by_cases :
            (b : Bool)
            → leb size (length seen) ≡ b
            → if◌then◌else◌ {A = Result (Bytes × ℕ) (Unit {0})} b
                (ok (take size seen, size))
                (err tt)
              ≡ ok (buffer, n)
            → n ≤ length seen
        by_cases true e h = subst (λ n. n ≤ length seen) (ap come h) (ground (arith, e))
        by_cases false e h = cc

abbrev pong : RpcResponse
pong = RpcResponse.pong (record { payload = 9 })

abbrev ping_id : ProtocolId
ping_id = new_protocol_id ping v1

abbrev meta_data_id : ProtocolId
meta_data_id = new_protocol_id meta_data v2

-- A codec that has read the length of a payload, and the code of a response.
abbrev waiting : BaseOutboundCodec
waiting = record {
  inner = record { protocol = ping_id; len = some 1 };
  current_response_code = some 0;
}

abbrev status_id : ProtocolId
status_id = new_protocol_id status v1

abbrev status_response : RpcResponse
status_response = RpcResponse.status (record {
  fork_digest = [];
  finalized_root = [];
  finalized_epoch = 6;
  head_root = [];
  head_slot = 7;
})

decodes :
    outbound_decode plain (OutboundCodec.ssz_snappy waiting) (9 ∷ 5 ∷ [])
    ≡ returns (new_outbound ping_id, 5 ∷ [], ok (some (success pong)))
unfolding decode_base_response decode_coded SszSnappy.decode_response SszSnappy.decode_from
    SszSnappy.handle_length is_out_of_bounds new_protocol_id SszSnappy.split_to
    SszSnappy.handle_response new_outbound SszSnappy.new
decodes = refl

decodes_request :
    inbound_decode plain
      (InboundCodec.ssz_snappy (record { inner = SszSnappy.new meta_data_id }))
      (3 ∷ [])
    ≡ returns (new_inbound meta_data_id, 3 ∷ [], answer (ok InboundRequest.meta_data))
unfolding decode_base SszSnappy.decode_request SszSnappy.new new_protocol_id new_inbound
decodes_request = refl

upgrades :
    upgrade_inbound meta_data (decoded (ok InboundRequest.meta_data)) ≡ ok InboundRequest.meta_data
unfolding upgrade_inbound
upgrades = refl

outbound_decode-inbound_encode_example :
    (bytes : Bytes) × (inbound_encode plain (new_inbound ping_id) (success pong) (8 ∷ [])
      ≡ returns (bytes, ok tt))
    × ((rest : Bytes)
        → outbound_decode plain (new_outbound ping_id) (bytes ++ rest)
          ≡ returns (new_outbound ping_id, rest, ok (some (success pong))))
unfolding new_inbound new_protocol_id
outbound_decode-inbound_encode_example =
    outbound_decode-inbound_encode plain_laws (new_inbound ping_id) (8 ∷ []) ping_id (success pong)
      (refl, (refl, refl), omega arith)

abbrev first_piece : Bytes
first_piece = 0 ∷ 2 ∷ 6 ∷ []

abbrev sent_length : ℕ
sent_length = length (plain_laws.varint (length (SszSnappy.response_bytes plain status_response)))

outbound_decode-cut_example :
    (codec : OutboundCodec) × (left : Bytes) × (((length first_piece ≤ sent_length)
        × (outbound_decode plain (new_outbound status_id) first_piece
            ≡ returns (codec, left, ok none))
        × ((rest : Bytes)
            → outbound_decode plain codec (left ++ (7 ∷ rest))
              ≡ returns (new_outbound status_id, rest, ok (some (success status_response)))))
      ⊎ ((sent_length < length first_piece)
          × (outbound_decode plain (new_outbound status_id) first_piece
              ≡ returns (codec, left, err RpcError.error))))
unfolding new_protocol_id plain_laws
outbound_decode-cut_example =
    outbound_decode-cut plain_laws status_id status_response first_piece [] 7 refl (refl, refl)
      (omega arith) refl

outbound_decode-panics_example :
    outbound_decode plain (new_outbound meta_data_id) (0 ∷ 1 ∷ 7 ∷ 3 ∷ []) ≡ panics
unfolding new_protocol_id plain_laws
outbound_decode-panics_example =
    outbound_decode-panics plain_laws meta_data_id (7 ∷ []) (3 ∷ []) refl refl (omega arith) refl

outbound_decode-IsOfProtocol_example : IsOfProtocol ping (success pong)
unfolding new_protocol_id
outbound_decode-IsOfProtocol_example =
    outbound_decode-IsOfProtocol plain waiting (9 ∷ 5 ∷ []) (new_outbound ping_id) (5 ∷ [])
      (success pong) decodes

upgrade_inbound-inbound_decode_example :
    (InboundRequest.meta_data ≡ InboundRequest.meta_data) × (meta_data ≡ meta_data)
unfolding new_protocol_id SszSnappy.new
upgrade_inbound-inbound_decode_example =
    upgrade_inbound-inbound_decode plain (record { inner = SszSnappy.new meta_data_id }) (3 ∷ [])
      (new_inbound meta_data_id) (3 ∷ []) (ok InboundRequest.meta_data) InboundRequest.meta_data
      decodes_request upgrades

inbound_decode-returns_example :
    (out : InboundCodec × Bytes × Result (Option InboundRequest) RpcError) × (inbound_decode plain
        (new_inbound ping_id)
        (1 ∷ 9 ∷ [])
      ≡ returns out)
unfolding new_inbound
inbound_decode-returns_example =
    inbound_decode-returns plain_laws (record { inner = SszSnappy.new ping_id }) (1 ∷ 9 ∷ [])
