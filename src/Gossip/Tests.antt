-- ===== src/Gossip/Tests.antt =====
-- The transform and the message ids over small libraries.
use cl_p2p_setup.Base.{ℕ, zero, suc, ◌≡◌, refl, ap, Option, none, some, [], ◌∷◌, length, arith}
use cl_p2p_setup.Base.Swarm.{Result, ok, err}
use cl_p2p_setup.Rpc.Codec.{Bytes}
use cl_p2p_setup.Gossip.{
  Snappy, RawGossipsubMessage, GossipsubMessage, new, inbound_transform, outbound_transform, prefix,
  gossip_max_size_bellatrix,
}
use cl_p2p_setup.Gossip.Transform.{SnappyLaws, inbound_transform-outbound_transform}
use cl_p2p_setup.Gossip.MessageId.{prefix-injective}

-- Nothing is compressed.
abbrev plain : Snappy
plain = record {
  decompress_len = λ bytes. ok (length bytes);
  decompress_vec = ok;
  compress_vec = ok;
}

abbrev plain_laws : SnappyLaws plain gossip_max_size_bellatrix
plain_laws = record {
  packed = λ bytes. bytes;
  compress_is = λ bytes h. refl;
  read_length = λ bytes h. refl;
  read_bytes = λ bytes h. refl;
  length_is = λ raw bytes e. ap (λ r. ok (length (value r))) e;
}
  where
    value : Result Bytes (Unit {0}) → Bytes
    value (ok bytes) = bytes
    value (err e) = []

abbrev raw : RawGossipsubMessage ℕ
raw = record { source = none; payload = 5 ∷ 6 ∷ []; sequence_number = none; topic = 9 ∷ [] }

abbrev message : Option ℕ → GossipsubMessage ℕ
message source = record {
  source = source;
  payload = 5 ∷ 6 ∷ [];
  sequence_number = none;
  topic = 9 ∷ [];
}

abbrev five : Bytes
five = 5 ∷ []

abbrev zeros : ℕ → Bytes
zeros zero = []
zeros (suc n) = 0 ∷ zeros n

inbound_transform-outbound_transform_example :
    (sent : Bytes) × (outbound_transform plain new five ≡ ok sent)
    × ((source : Option ℕ) (number : Option ℕ) (topic : Bytes)
        → inbound_transform plain new
            (record { source = source; payload = sent; sequence_number = number; topic = topic })
          ≡ ok
              (record { source = source; payload = five; sequence_number = number; topic = topic }))
inbound_transform-outbound_transform_example =
    inbound_transform-outbound_transform new plain_laws five (omega arith)

same : prefix (1 ∷ 0 ∷ 0 ∷ 0 ∷ []) (message none) ≡ prefix (1 ∷ 0 ∷ 0 ∷ 0 ∷ []) (message (some 4))
unfolding prefix
same = refl

prefix-injective_example :
    ((message none).topic ≡ (message (some 4)).topic)
    × ((message none).payload ≡ (message (some 4)).payload)
prefix-injective_example =
    prefix-injective (1 ∷ 0 ∷ 0 ∷ 0 ∷ []) (message none) (message (some 4)) (omega arith)
      (omega arith) same
