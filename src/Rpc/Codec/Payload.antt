-- ===== src/Rpc/Codec/Payload.antt =====
-- rpc/codec/ssz_snappy.rs: a payload that is written, read back by the part that the decoders share.
use cl_p2p_setup.Base.{
  le→leb, le→not_ltb, ℕ, ◌≤◌, ◌<◌, ◌≡◌, refl, ap, ◌∙◌, Bool, false, Option, none, some, ◌∷◌, ◌++◌,
  length, drop-length, length-append, arith,
}
use cl_p2p_setup.Base.Swarm.{Result, ok, err}
use cl_p2p_setup.Base.Machine.{Outcome, returns, ◌>>=◌, usize_mod}
use cl_p2p_setup.Rpc.Protocol.{ProtocolId, RpcError, max_rpc_size_post_merge}
use cl_p2p_setup.Rpc.Codec.{Bytes, Wire}
use cl_p2p_setup.Rpc.Codec.SszSnappy.{
  new, split_to, write_payload, handle_length, decode_from, decode_with,
}
use cl_p2p_setup.Rpc.Codec.Laws.{WireLaws}
use mathlib.Core.List.{append_assoc}

pub split_to_front : (front rest : Bytes) → split_to (length front) (front ++ rest) ≡ returns rest
unfolding split_to
split_to_front front rest =
    rw (le→leb (length front) (length (front ++ rest)) (omega (arith, length-append front rest)))
      (ap returns (drop-length front rest))

module _ {wire : Wire} (laws : WireLaws wire) where
  -- What is written of `bytes`.
  abbrev pub payload : Bytes → Bytes
  payload bytes = laws.varint (length bytes) ++ laws.frames bytes

  pub write_payload-fits :
      (bytes dst : Bytes)
      → length bytes ≤ max_rpc_size_post_merge
      → write_payload wire bytes dst ≡ (dst ++ payload bytes, ok tt)
  unfolding write_payload
  write_payload-fits bytes dst h =
      rw
        (
          le→not_ltb max_rpc_size_post_merge (length bytes) h,
          laws.put_is (length bytes) (omega (arith, h)),
          laws.compress_is bytes,
        )
        refl

  handle_length-varint :
      (n : ℕ) (rest : Bytes)
      → n < usize_mod
      → handle_length wire none (laws.varint n ++ rest) ≡ (some n, rest, ok (some n))
  unfolding handle_length
  handle_length-varint n rest h = rw (laws.get_put n rest h, handle_length) refl

  handle_length-short :
      (n x : ℕ) (front back : Bytes)
      → n < usize_mod
      → laws.varint n ≡ front ++ x ∷ back
      → handle_length wire none front ≡ (none, front, ok none)
  unfolding handle_length
  handle_length-short n x front back h c = rw (laws.get_cut n x front back h c, handle_length) refl

  handle_length-payload :
      (bytes rest : Bytes)
      → length bytes ≤ max_rpc_size_post_merge
      → handle_length wire none (payload bytes ++ rest)
        ≡ (some (length bytes), laws.frames bytes ++ rest, ok (some (length bytes)))
  handle_length-payload bytes rest h =
      rw append_assoc
        (handle_length-varint (length bytes) (laws.frames bytes ++ rest) (omega (arith, h)))

module _ {wire : Wire} (laws : WireLaws wire) {Item : Type 0} (refuses : ℕ → Bool)
    (finish : Bytes → Outcome (Result (Option Item) RpcError)) where
  pub decode_with-payload :
      (protocol : ProtocolId) (bytes rest : Bytes)
      → length bytes ≤ max_rpc_size_post_merge
      → refuses (length bytes) ≡ false
      → decode_with wire refuses finish (new protocol) (payload laws bytes ++ rest)
        ≡ (finish bytes >>= λ result. returns (new protocol, rest, result))
  unfolding decode_from new
  decode_with-payload protocol bytes rest h f =
      ap (decode_from wire refuses finish protocol) (handle_length-payload laws bytes rest h)
      ∙ rw
          (
            f,
            laws.read_frames bytes rest (wire.max_compress_len (length bytes))
                (laws.frames_fit bytes h),
            split_to_front (laws.frames bytes) rest,
          )
          refl

  -- The frames are cut: what is there of them is kept, and so is the length.
  pub decode_with-cut :
      (protocol : ProtocolId) (bytes front back : Bytes) (x : ℕ)
      → length bytes ≤ max_rpc_size_post_merge
      → refuses (length bytes) ≡ false
      → laws.frames bytes ≡ front ++ x ∷ back
      → decode_with wire refuses finish (new protocol) (laws.varint (length bytes) ++ front)
        ≡ returns
            (record { protocol = protocol; len = some (length bytes) }, front, err RpcError.error)
  unfolding decode_from new
  decode_with-cut protocol bytes front back x h f c =
      ap (decode_from wire refuses finish protocol)
        (handle_length-varint laws (length bytes) front (omega (arith, h)))
      ∙ rw (f, laws.read_cut bytes front back x (wire.max_compress_len (length bytes)) c) refl

  -- The length is cut: nothing is taken.
  pub decode_with-short :
      (protocol : ProtocolId) (bytes front back : Bytes) (x : ℕ)
      → length bytes ≤ max_rpc_size_post_merge
      → laws.varint (length bytes) ≡ front ++ x ∷ back
      → decode_with wire refuses finish (new protocol) front
        ≡ returns (new protocol, front, ok none)
  unfolding decode_from new
  decode_with-short protocol bytes front back x h c =
      ap (decode_from wire refuses finish protocol)
        (handle_length-short laws (length bytes) x front back (omega (arith, h)) c)
