-- ===== src/Gossip/Transform.antt =====
-- main.rs: gossip data through the two directions of the transform.
use cl_p2p_setup.Base.{
  le→not_ltb, ℕ, ◌≤◌, ◌≡◌, refl, sym, ap, ◌∙◌, subst, Option, [], length, ltb, arith, inl, inr,
  Bool-cases,
}
use cl_p2p_setup.Base.Swarm.{Result, ok, err, Result-cases}
use cl_p2p_setup.Rpc.Codec.{Bytes}
use cl_p2p_setup.Gossip.{
  Snappy, IoError, invalid_data, RawGossipsubMessage, GossipsubMessage, SnappyTransform, of_snappy,
  inbound_transform, outbound_transform,
}

-- Snappy compresses up to a limit of its own, not below `limit`, and reads the length and the bytes
-- back; bytes that it decompresses have the length of the header.
pub record SnappyLaws (lib : Snappy) (limit : ℕ) : Type 0 where
  pub packed : Bytes → Bytes
  pub compress_is :
      (bytes : Bytes) → length bytes ≤ limit → lib.compress_vec bytes ≡ ok (packed bytes)
  pub read_length :
      (bytes : Bytes) → length bytes ≤ limit → lib.decompress_len (packed bytes) ≡ ok (length bytes)
  pub read_bytes :
      (bytes : Bytes) → length bytes ≤ limit → lib.decompress_vec (packed bytes) ≡ ok bytes
  pub length_is :
      (raw bytes : Bytes)
      → lib.decompress_vec raw ≡ ok bytes
      → lib.decompress_len raw ≡ ok (length bytes)

abbrev length_in : Result ℕ (Unit {0}) → ℕ
length_in (ok n) = n
length_in (err e) = 0

length-injective : {m n : ℕ} → ◌≡◌ {A = Result ℕ (Unit {0})} (ok m) (ok n) → m ≡ n
length-injective h = ap length_in h

abbrev payload_in : {PeerId : Type 0} → Result (GossipsubMessage PeerId) IoError → Bytes
payload_in (ok message) = message.payload
payload_in (err e) = []

module _ {lib : Snappy} {PeerId : Type 0} (s : SnappyTransform)
    (laws : SnappyLaws lib s.max_size_per_message) where
  -- Data within the limit is sent, and a message that carries what was sent is received with that data,
  -- its source, number and topic as they are.
  pub inbound_transform-outbound_transform :
      (bytes : Bytes)
      → length bytes ≤ s.max_size_per_message
      → (sent : Bytes) × (outbound_transform lib s bytes ≡ ok sent)
        × ((source : Option PeerId) (number : Option ℕ) (topic : Bytes)
            → inbound_transform lib s (record {
              source = source;
              payload = sent;
              sequence_number = number;
              topic = topic;
            })
              ≡ ok (record {
                source = source;
                payload = bytes;
                sequence_number = number;
                topic = topic;
              }))
  unfolding inbound_transform outbound_transform
  inbound_transform-outbound_transform bytes h = (
    laws.packed bytes,
    rw (le→not_ltb s.max_size_per_message (length bytes) h, laws.compress_is bytes h) refl,
    λ source number topic.
        rw
          (
            inbound_transform,
            laws.read_length bytes h,
            le→not_ltb s.max_size_per_message (length bytes) h,
            laws.read_bytes bytes h,
          )
          refl,
  )

  -- A message that is received has data within the limit, whatever its header gave.
  pub inbound_transform-bounds :
      (raw : RawGossipsubMessage PeerId) (message : GossipsubMessage PeerId)
      → inbound_transform lib s raw ≡ ok message
      → length message.payload ≤ s.max_size_per_message
  unfolding inbound_transform
  inbound_transform-bounds raw message h = small message h
    where
      refused :
          (e : IoError) (message : GossipsubMessage PeerId)
          → ◌≡◌ {A = Result (GossipsubMessage PeerId) IoError} (err e) (ok message)
          → length message.payload ≤ s.max_size_per_message
      refused e message h = cc

      by_bytes :
          (message : GossipsubMessage PeerId) (len : ℕ) (x : Result Bytes (Unit {0}))
          → len ≤ s.max_size_per_message
          → ((bytes : Bytes) → x ≡ ok bytes → len ≡ length bytes)
          → elim (of_snappy x) [
            | err e ↦ err e
            | ok decompressed ↦ ok (record {
              source = raw.source;
              payload = decompressed;
              sequence_number = raw.sequence_number;
              topic = raw.topic;
            })
          ]
            ≡ ok message
          → length message.payload ≤ s.max_size_per_message
      by_bytes message len (err e) h same f = cc
      by_bytes message len (ok bytes) h same f =
          subst (λ bytes. length bytes ≤ s.max_size_per_message) (ap payload_in f)
            (omega (arith, h, same bytes refl))

      small :
          (message : GossipsubMessage PeerId)
          → inbound_transform lib s raw ≡ ok message
          → length message.payload ≤ s.max_size_per_message
      small message h = elim (Result-cases (lib.decompress_len raw.payload)) [
        | inr (e, f) ↦ refused IoError.snappy message (rw (inbound_transform, f) at h)
        | inl (len, f) ↦ elim (Bool-cases (ltb s.max_size_per_message len)) [
          | inl g ↦ refused invalid_data message (rw (inbound_transform, f, g) at h)
          | inr g ↦
              by_bytes message len (lib.decompress_vec raw.payload) (ground (arith, g))
                (λ bytes e. length-injective (sym f ∙ laws.length_is raw.payload bytes e))
                (rw (inbound_transform, f, g) at h)
        ]
      ]
