-- ===== src/Gossip.antt =====
-- main.rs: the transform of gossip messages, and their ids. Raw snappy and SHA-256 are libraries.
pub mod Transform
pub mod MessageId
mod Tests
use cl_p2p_setup.Base.{
  ℕ, suc, zero, ◌*◌, ◌/◌, ◌%◌, Option, List, [], ◌∷◌, ◌++◌, String, length, take, ltb, leb,
  if◌then◌else◌,
}
use cl_p2p_setup.Base.Swarm.{Result, ok, err}
use cl_p2p_setup.Base.Machine.{Outcome, returns, panics}
use cl_p2p_setup.Rpc.Codec.{Bytes}

-- `snap::raw`: the length that the header of compressed bytes gives, and the two directions.
pub record Snappy : Type 0 where
  pub decompress_len : Bytes → Result ℕ (Unit {0})
  pub decompress_vec : Bytes → Result Bytes (Unit {0})
  pub compress_vec : Bytes → Result Bytes (Unit {0})

-- An `std::io::Error`: of the kind `InvalidData`, made by the transform, or one of snappy.
pub data IoError : Type 0 where
  invalid_data snappy : IoError

-- What the transform reads of a raw message; a topic is the bytes of its string.
pub record RawGossipsubMessage (PeerId : Type 0) : Type 0 where
  pub source : Option PeerId
  pub payload : Bytes
  pub sequence_number : Option ℕ
  pub topic : Bytes

pub record GossipsubMessage (PeerId : Type 0) : Type 0 where
  pub source : Option PeerId
  pub payload : Bytes
  pub sequence_number : Option ℕ
  pub topic : Bytes

abbrev pub gossip_max_size_bellatrix : ℕ
gossip_max_size_bellatrix = 10 * 1_048_576

abbrev pub message_domain_valid_snappy : Bytes
message_domain_valid_snappy = 1 ∷ 0 ∷ 0 ∷ 0 ∷ []

pub record SnappyTransform : Type 0 where
  pub max_size_per_message : ℕ

abbrev pub new : SnappyTransform
new = record { max_size_per_message = gossip_max_size_bellatrix }

-- `?` and `map_err(Into::into)` on a result of snappy.
abbrev pub of_snappy : {A : Type 0} → Result A (Unit {0}) → Result A IoError
of_snappy (ok a) = ok a
of_snappy (err e) = err snappy

module _ (lib : Snappy) {PeerId : Type 0} where
  unfoldable pub inbound_transform :
      SnappyTransform → RawGossipsubMessage PeerId → Result (GossipsubMessage PeerId) IoError
  inbound_transform s raw_message = elim (of_snappy (lib.decompress_len raw_message.payload)) [
    | err e ↦ err e
    | ok len ↦
        if ltb s.max_size_per_message len
        then err invalid_data
        else elim (of_snappy (lib.decompress_vec raw_message.payload)) [
          | err e ↦ err e
          | ok decompressed ↦ ok (record {
            source = raw_message.source;
            payload = decompressed;
            sequence_number = raw_message.sequence_number;
            topic = raw_message.topic;
          })
        ]
  ]

-- The topic is only printed.
unfoldable pub outbound_transform : Snappy → SnappyTransform → Bytes → Result Bytes IoError
outbound_transform lib s bytes =
    if ltb s.max_size_per_message (length bytes)
    then err invalid_data
    else of_snappy (lib.compress_vec bytes)

-- `to_le_bytes` of a word of so many bytes.
abbrev pub to_le_bytes : ℕ → ℕ → Bytes
to_le_bytes zero n = []
to_le_bytes (suc k) n = n % 256 ∷ to_le_bytes k (n / 256)

module _ {PeerId : Type 0} where
  unfoldable pub prefix : Bytes → GossipsubMessage PeerId → Bytes
  prefix domain message =
      domain ++ (to_le_bytes 8 (length message.topic) ++ (message.topic ++ message.payload))

  -- The id of a message, with the digest as a parameter; the slice of 20 bytes panics on less.
  unfoldable pub gossip_message_id : (Bytes → Bytes) → GossipsubMessage PeerId → Outcome Bytes
  gossip_message_id sha256 message =
      let digest = sha256 (prefix message_domain_valid_snappy message) in
      if leb 20 (length digest) then returns (take 20 digest) else panics
