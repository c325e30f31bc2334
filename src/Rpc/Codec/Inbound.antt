-- ===== src/Rpc/Codec/Inbound.antt =====
-- rpc/codec/: what is read of the requests of other nodes.
use cl_p2p_setup.Base.{
  le→leb, ℕ, ◌≤◌, ◌≡◌, refl, sym, ap, ◌∙◌, Bool, true, false, Option, none, some, [], ◌∷◌, length,
  take, drop, length-take, if◌then◌else◌, arith, inl, inr, Bool-cases,
}
use cl_p2p_setup.Base.Swarm.{Result, ok, err}
use cl_p2p_setup.Base.Machine.{Outcome, returns, ◌>>=◌, returns-injective, >>=-eq-returns}
use cl_p2p_setup.Rpc.Protocol.{Protocol, status, ping, meta_data, ProtocolId, RpcError}
use cl_p2p_setup.Rpc.Inbound.{InboundRequest, FirstRead, decoded, upgrade_inbound}
use cl_p2p_setup.Rpc.Codec.{Bytes, Wire}
use cl_p2p_setup.Rpc.Codec.SszSnappy.{
  SszSnappyCodec, split_to, decode_from, decode_with, out_of_limits, handle_length, decode_request,
  finish_request, is_meta_data,
}
use cl_p2p_setup.Rpc.Codec.Base.{BaseInboundCodec, InboundCodec, decode_base, inbound_decode}
use cl_p2p_setup.Rpc.Codec.Laws.{WireLaws}
use cl_p2p_setup.Rpc.Codec.Items.{decode_from-item, item-injective}

-- What is decoded, as an answer of the decoder.
abbrev pub answer : Result InboundRequest RpcError → Result (Option InboundRequest) RpcError
answer (ok request) = ok (some request)
answer (err e) = err e

request-injective :
    {a b : InboundRequest} → ◌≡◌ {A = Result InboundRequest RpcError} (ok a) (ok b) → a ≡ b
request-injective {a} h = item-injective (ap answer h)

split_to-returns :
    (n : ℕ) (src : Bytes) → n ≤ length src → (left : Bytes) × (split_to n src ≡ returns left)
unfolding split_to
split_to-returns n src h = (drop n src, rw (le→leb n (length src) h) refl)

module _ {wire : Wire} (laws : WireLaws wire) {Item : Type 0} (refuses : ℕ → Bool)
    (finish : Bytes → Outcome (Result (Option Item) RpcError))
    (finishes : (buffer : Bytes)
      → (result : Result (Option Item) RpcError) × (finish buffer ≡ returns result)) where
  -- With a reader that keeps to what it may see, nothing past the end is taken off.
  decode_from-returns :
      (protocol : ProtocolId) (got : Option ℕ × Bytes × Result (Option ℕ) RpcError)
      → (out : SszSnappyCodec × Bytes × Result (Option Item) RpcError) × (decode_from wire refuses
            finish protocol got
          ≡ returns out)
  unfolding decode_from
  decode_from-returns protocol (len, rest, err e) = (_, refl)
  decode_from-returns protocol (len, rest, ok none) = (_, refl)
  decode_from-returns protocol (len, rest, ok (some n)) = elim (Bool-cases (refuses n)) [
    | inl e ↦ ((record { protocol = protocol; len = len }, rest, err RpcError.error), rw e refl)
    | inr e ↦ (
      (by_read (wire.read_exact (take (wire.max_compress_len n) rest) n) refl).0,
      rw e ((by_read (wire.read_exact (take (wire.max_compress_len n) rest) n) refl).1),
    )
  ]
    where
      by_read :
          (x : Result (Bytes × ℕ) (Unit {0}))
          → wire.read_exact (take (wire.max_compress_len n) rest) n ≡ x
          → (out : SszSnappyCodec × Bytes × Result (Option Item) RpcError) × (elim x [
            | err e ↦ returns (record { protocol = protocol; len = len }, rest, err RpcError.error)
            | ok (buffer, k) ↦ do
              left ← split_to k rest
              result ← finish buffer
              returns (record { protocol = protocol; len = none }, left, result)
          ]
              ≡ returns out)
      by_read (err e) f = (_, refl)
      by_read (ok (buffer, k)) f =
          let (left, g) = split_to-returns k rest (
            omega (
              arith,
              laws.read_within (take (wire.max_compress_len n) rest) buffer n k f,
              length-take (wire.max_compress_len n) rest,
            )) in
          let (result, i) = finishes buffer in
          ((record { protocol = protocol; len = none }, left, result), rw (g, i) refl)

is_meta_data-true : (name : Protocol) → is_meta_data name ≡ true → name ≡ meta_data
is_meta_data-true meta_data h = refl
is_meta_data-true status h = cc
is_meta_data-true ping h = cc
is_meta_data-true Protocol.goodbye h = cc
is_meta_data-true Protocol.blocks_by_range h = cc
is_meta_data-true Protocol.blocks_by_root h = cc
is_meta_data-true Protocol.light_client_bootstrap h = cc

module _ (wire : Wire) where
  finish_request-item :
      (name : Protocol) (buffer : Bytes) (request : InboundRequest)
      → finish_request wire name buffer ≡ returns (ok (some request))
      → (request ≡ InboundRequest.meta_data) × (name ≡ meta_data)
  finish_request-item meta_data [] request h = (sym (item-injective (returns-injective h)), refl)
  finish_request-item meta_data (x ∷ buffer) request h = cc
  finish_request-item status buffer request h = cc
  finish_request-item ping buffer request h = cc
  finish_request-item Protocol.goodbye buffer request h = cc
  finish_request-item Protocol.blocks_by_range buffer request h = cc
  finish_request-item Protocol.blocks_by_root buffer request h = cc
  finish_request-item Protocol.light_client_bootstrap buffer request h = cc

  decode_request-item :
      (codec : SszSnappyCodec) (src : Bytes) (codec' : SszSnappyCodec) (rest : Bytes)
      (request : InboundRequest)
      → decode_request wire codec src ≡ returns (codec', rest, ok (some request))
      → (request ≡ InboundRequest.meta_data) × (codec.protocol.message_name ≡ meta_data)
  unfolding decode_request
  decode_request-item codec src codec' rest request h =
      by_cases (is_meta_data codec.protocol.message_name) refl h
    where
      by_cases :
          (b : Bool)
          → is_meta_data codec.protocol.message_name ≡ b
          → (if b
              then returns (codec, src, ok (some InboundRequest.meta_data))
              else decode_with wire
                  (out_of_limits wire codec.protocol)
                  (finish_request wire codec.protocol.message_name)
                  codec
                  src)
            ≡ returns (codec', rest, ok (some request))
          → (request ≡ InboundRequest.meta_data) × (codec.protocol.message_name ≡ meta_data)
      by_cases true e h = (
        sym (item-injective (ap (λ r. r.2) (returns-injective h))),
        is_meta_data-true codec.protocol.message_name e,
      )
      by_cases false e h =
          let (buffer, f) = decode_from-item wire _ _ codec.protocol _ codec' rest request h in
          finish_request-item codec.protocol.message_name buffer request f

  decode_base-item :
      (codec : BaseInboundCodec) (src : Bytes) (codec' : BaseInboundCodec) (rest : Bytes)
      (request : InboundRequest)
      → decode_base wire codec src ≡ returns (codec', rest, ok (some request))
      → (request ≡ InboundRequest.meta_data) × (codec.inner.protocol.message_name ≡ meta_data)
  unfolding decode_base
  decode_base-item codec src codec' rest request h =
      let (t, e, f) = >>=-eq-returns (decode_request wire codec.inner src) _ h in
      decode_request-item codec.inner src t.0 t.1 request
        (e ∙ ap (λ x. returns (t.0, t.1, x)) (ap (λ r. r.2) (returns-injective f)))

upgrade_inbound-meta_data :
    (name : Protocol) (first : FirstRead) (request : InboundRequest)
    → name ≡ meta_data
    → upgrade_inbound name first ≡ ok request
    → request ≡ InboundRequest.meta_data
unfolding upgrade_inbound
upgrade_inbound-meta_data name first request e h =
    sym (request-injective (sym (ap (λ name. upgrade_inbound name first) e) ∙ h))

upgrade_inbound-err :
    (name : Protocol) (e : RpcError) (request : InboundRequest)
    → upgrade_inbound name (decoded (err e)) ≡ ok request
    → name ≡ meta_data
unfolding upgrade_inbound
upgrade_inbound-err meta_data e request h = refl
upgrade_inbound-err status e request h = cc
upgrade_inbound-err ping e request h = cc
upgrade_inbound-err Protocol.goodbye e request h = cc
upgrade_inbound-err Protocol.blocks_by_range e request h = cc
upgrade_inbound-err Protocol.blocks_by_root e request h = cc
upgrade_inbound-err Protocol.light_client_bootstrap e request h = cc

module _ (wire : Wire) where
  -- The bytes of a stream make a request of another node in one case only: it asks for the metadata, on
  -- a stream of that protocol. What else is decoded first on an inbound stream, in whatever state the
  -- codec is, the upgrade refuses.
  pub upgrade_inbound-inbound_decode :
      (codec : BaseInboundCodec) (src : Bytes) (codec' : InboundCodec) (rest : Bytes)
      (first : Result InboundRequest RpcError) (request : InboundRequest)
      → inbound_decode wire (InboundCodec.ssz_snappy codec) src
        ≡ returns (codec', rest, answer first)
      → upgrade_inbound codec.inner.protocol.message_name (decoded first) ≡ ok request
      → (request ≡ InboundRequest.meta_data) × (codec.inner.protocol.message_name ≡ meta_data)
  upgrade_inbound-inbound_decode codec src codec' rest (err e) request h f =
      let named = upgrade_inbound-err codec.inner.protocol.message_name e request f in
      (upgrade_inbound-meta_data _ (decoded (err e)) request named f, named)
  upgrade_inbound-inbound_decode codec src codec' rest (ok first) request h f =
      let (t, e, g) = >>=-eq-returns (decode_base wire codec src) _ h in
      let (first_is, named) =
        decode_base-item wire codec src t.0 t.1 first
          (e ∙ ap (λ x. returns (t.0, t.1, x)) (ap (λ r. r.2) (returns-injective g))) in
      (upgrade_inbound-meta_data _ (decoded (ok first)) request named f, named)

module _ {wire : Wire} (laws : WireLaws wire) where
  -- Reading a request panics in no state of the codec, whatever the bytes are.
  pub inbound_decode-returns :
      (codec : BaseInboundCodec) (src : Bytes)
      → (out : InboundCodec × Bytes × Result (Option InboundRequest) RpcError) × (inbound_decode
            wire
            (InboundCodec.ssz_snappy codec)
            src
          ≡ returns out)
  unfolding decode_base decode_request
  inbound_decode-returns codec src =
      elim (Bool-cases (is_meta_data codec.inner.protocol.message_name)) [
        | inl e ↦
            ((InboundCodec.ssz_snappy codec, src, ok (some InboundRequest.meta_data)), rw e refl)
        | inr e ↦
            let ((inner, rest, item), f) =
              decode_from-returns laws (out_of_limits wire codec.inner.protocol)
                (finish_request wire codec.inner.protocol.message_name) (λ buffer. (_, refl))
                codec.inner.protocol (handle_length wire codec.inner.len src) in
            ((InboundCodec.ssz_snappy (record { inner = inner }), rest, item), rw (e, f) refl)
      ]
