-- ===== src/Rpc/Codec/Items.antt =====
-- rpc/codec/: the types of the responses that are read.
use cl_p2p_setup.Base.{
  ℕ, ◌≡◌, refl, ap, ◌∙◌, subst, Bool, true, false, Option, none, some, [], ◌∷◌, take, if◌then◌else◌,
}
use cl_p2p_setup.Base.Swarm.{Result, ok, err}
use cl_p2p_setup.Base.Machine.{Outcome, returns, ◌>>=◌, returns-injective, >>=-eq-returns}
use cl_p2p_setup.Rpc.Methods.{RpcResponse, RpcCodedResponse, success, error, is_response}
use cl_p2p_setup.Rpc.Protocol.{Protocol, status, ping, meta_data, ProtocolId, RpcError}
use cl_p2p_setup.Rpc.Codec.{Bytes, Wire, Decoded}
use cl_p2p_setup.Rpc.Codec.SszSnappy
use cl_p2p_setup.Rpc.Codec.SszSnappy.{
  SszSnappyCodec, response_bytes, coded_bytes, encode_response, handle_response, unwrapped,
  decode_response, decode_with, decode_error, decode_from, out_of_limits, finish_error,
}
use cl_p2p_setup.Rpc.Codec.Base.{
  BaseOutboundCodec, OutboundCodec, decode_coded, decode_base_response, outbound_decode, map_item,
}
use cl_p2p_setup.Rpc.Codec.RoundTrip.{response_protocol}

-- A response has the type of the protocol.
abbrev pub IsOfProtocol : Protocol → RpcCodedResponse → Type 0
IsOfProtocol name (success r) = name ≡ response_protocol r
IsOfProtocol name error = Unit {0}

module _ (wire : Wire) {Item : Type 0} (refuses : ℕ → Bool)
    (finish : Bytes → Outcome (Result (Option Item) RpcError)) where
  -- An item comes from the buffer.
  pub decode_from-item :
      (protocol : ProtocolId) (got : Option ℕ × Bytes × Result (Option ℕ) RpcError)
      (codec : SszSnappyCodec) (left : Bytes) (item : Item)
      → decode_from wire refuses finish protocol got ≡ returns (codec, left, ok (some item))
      → (buffer : Bytes) × (finish buffer ≡ returns (ok (some item)))
  unfolding decode_from
  decode_from-item protocol (len, rest, err e) codec left item h = cc
  decode_from-item protocol (len, rest, ok none) codec left item h = cc
  decode_from-item protocol (len, rest, ok (some n)) codec left item h =
      by_cases (refuses n) (wire.read_exact (take (wire.max_compress_len n) rest) n) h
    where
      read : Result (Bytes × ℕ) (Unit {0}) → Decoded SszSnappyCodec Item
      read (err e) = returns (record { protocol = protocol; len = len }, rest, err RpcError.error)
      read (ok (buffer, k)) = do
        left ← SszSnappy.split_to k rest
        result ← finish buffer
        returns (record { protocol = protocol; len = none }, left, result)

      by_cases :
          (b : Bool) (x : Result (Bytes × ℕ) (Unit {0}))
          → (if b
              then returns (record { protocol = protocol; len = len }, rest, err RpcError.error)
              else read x)
            ≡ returns (codec, left, ok (some item))
          → (buffer : Bytes) × (finish buffer ≡ returns (ok (some item)))
      by_cases true x h = cc
      by_cases false (err e) h = cc
      by_cases false (ok (buffer, k)) h =
          let (left', f, g) = >>=-eq-returns (SszSnappy.split_to k rest) _ h in
          let (result, i, l) = >>=-eq-returns (finish buffer) _ g in
          (buffer, i ∙ ap returns (ap (λ r. r.2) (returns-injective l)))

-- The item of an answer.
abbrev item_in : {A : Type 0} → A → Result (Option A) RpcError → A
item_in default (ok (some item)) = item
item_in default _ = default

pub item-injective :
    {A : Type 0} {a b : A}
    → ◌≡◌ {A = Result (Option A) RpcError} (ok (some a)) (ok (some b))
    → a ≡ b
item-injective {A} {a} h = ap (item_in a) h

map_item-holds :
    {A B : Type 0}
    → (f : A → B) (P : B → Type 0) (x : Result (Option A) RpcError) (b : B)
    → map_item f x ≡ ok (some b)
    → ((a : A) → x ≡ ok (some a) → P (f a))
    → P b
map_item-holds f P (err e) b h g = cc
map_item-holds f P (ok none) b h g = cc
map_item-holds f P (ok (some a)) b h g = subst P (item-injective h) (g a refl)

unwrapped-IsOfProtocol :
    {M : Type 0}
    → (wire : Wire) (wrap : M → RpcResponse) (name : Protocol) (x : Option M) (r : RpcResponse)
    → ((m : M) → name ≡ response_protocol (wrap m))
    → unwrapped wire wrap x ≡ returns (ok (some r))
    → name ≡ response_protocol r
unwrapped-IsOfProtocol wire wrap name none r h e = cc
unwrapped-IsOfProtocol wire wrap name (some m) r h e =
    subst (λ r. name ≡ response_protocol r) (item-injective (returns-injective e)) (h m)

module _ (wire : Wire) where
  handle_response-IsOfProtocol :
      (name : Protocol) (buffer : Bytes) (r : RpcResponse)
      → handle_response wire name buffer ≡ returns (ok (some r))
      → name ≡ response_protocol r
  unfolding handle_response
  handle_response-IsOfProtocol status buffer r h =
      unwrapped-IsOfProtocol wire RpcResponse.status status _ r (λ m. refl) h
  handle_response-IsOfProtocol ping buffer r h =
      unwrapped-IsOfProtocol wire _ ping (wire.decode_u64 buffer) r (λ m. refl) h
  handle_response-IsOfProtocol meta_data buffer r h =
      unwrapped-IsOfProtocol wire RpcResponse.meta_data meta_data _ r (λ m. refl) h
  handle_response-IsOfProtocol Protocol.goodbye buffer r h = cc
  handle_response-IsOfProtocol Protocol.blocks_by_range buffer r h = cc
  handle_response-IsOfProtocol Protocol.blocks_by_root buffer r h = cc
  handle_response-IsOfProtocol Protocol.light_client_bootstrap buffer r h = cc

  decode_response-IsOfProtocol :
      (codec codec' : SszSnappyCodec) (src rest : Bytes) (r : RpcResponse)
      → decode_response wire codec src ≡ returns (codec', rest, ok (some r))
      → codec.protocol.message_name ≡ response_protocol r
  unfolding decode_response
  decode_response-IsOfProtocol codec codec' src rest r h =
      let (buffer, e) = decode_from-item wire _ _ codec.protocol _ codec' rest r h in
      handle_response-IsOfProtocol codec.protocol.message_name buffer r e

  decode_coded-IsOfProtocol :
      (inner : SszSnappyCodec) (code : ℕ) (src : Bytes) (codec : BaseOutboundCodec) (rest : Bytes)
      (item : RpcCodedResponse)
      → decode_coded wire inner code src ≡ returns (codec, rest, ok (some item))
      → IsOfProtocol inner.protocol.message_name item
  unfolding decode_coded
  decode_coded-IsOfProtocol inner code src codec rest item h =
      let (t, e, f) = >>=-eq-returns _ _ h in
      by_cases (is_response code) t (ap (λ r. r.2) (returns-injective f)) e
    where
      by_cases :
          (b : Bool) (t : SszSnappyCodec × Bytes × Result (Option RpcCodedResponse) RpcError)
          → t.2 ≡ ok (some item)
          → (if b
              then (decode_response wire inner src >>= λ (inner', rest, item).
                  returns (inner', rest, map_item success item))
              else (decode_error wire inner src >>= λ (inner', rest, item).
                  returns (inner', rest, map_item (λ message. error) item)))
            ≡ returns t
          → IsOfProtocol inner.protocol.message_name item
      by_cases true t f e =
          let (u, g, k) = >>=-eq-returns (decode_response wire inner src) _ e in
          map_item-holds success (IsOfProtocol inner.protocol.message_name) u.2 item
            (ap (λ r. r.2) (returns-injective k) ∙ f)
            (λ r l.
              decode_response-IsOfProtocol inner u.0 src u.1 r
                (g ∙ ap (λ x. returns (u.0, u.1, x)) l))
      by_cases false t f e =
          let (u, g, k) = >>=-eq-returns (decode_error wire inner src) _ e in
          map_item-holds (λ message. error) (IsOfProtocol inner.protocol.message_name) u.2 item
            (ap (λ r. r.2) (returns-injective k) ∙ f) (λ r l. tt)

  decode_base_response-IsOfProtocol :
      (codec : BaseOutboundCodec) (src : Bytes) (codec' : BaseOutboundCodec) (rest : Bytes)
      (item : RpcCodedResponse)
      → decode_base_response wire codec src ≡ returns (codec', rest, ok (some item))
      → IsOfProtocol codec.inner.protocol.message_name item
  unfolding decode_base_response
  decode_base_response-IsOfProtocol codec [] codec' rest item h = cc
  decode_base_response-IsOfProtocol codec (x ∷ []) codec' rest item h = cc
  decode_base_response-IsOfProtocol codec (x ∷ y ∷ src) codec' rest item h =
      by_code codec.current_response_code h
    where
      by_code :
          (c : Option ℕ)
          → elim c [
            | none ↦ decode_coded wire codec.inner x (y ∷ src)
            | some code ↦ decode_coded wire codec.inner code (x ∷ y ∷ src)
          ]
            ≡ returns (codec', rest, ok (some item))
          → IsOfProtocol codec.inner.protocol.message_name item
      by_code none h = decode_coded-IsOfProtocol codec.inner x (y ∷ src) codec' rest item h
      by_code (some code) h =
          decode_coded-IsOfProtocol codec.inner code (x ∷ y ∷ src) codec' rest item h

  -- A response that is read on a stream, in whatever state its codec is, has the type of the stream's
  -- protocol.
  pub outbound_decode-IsOfProtocol :
      (codec : BaseOutboundCodec) (src : Bytes) (codec' : OutboundCodec) (rest : Bytes)
      (item : RpcCodedResponse)
      → outbound_decode wire (OutboundCodec.ssz_snappy codec) src
        ≡ returns (codec', rest, ok (some item))
      → IsOfProtocol codec.inner.protocol.message_name item
  outbound_decode-IsOfProtocol codec src codec' rest item h =
      let (t, e, f) = >>=-eq-returns (decode_base_response wire codec src) _ h in
      decode_base_response-IsOfProtocol codec src t.0 t.1 item
        (e ∙ ap (λ x. returns (t.0, t.1, x)) (ap (λ r. r.2) (returns-injective f)))
