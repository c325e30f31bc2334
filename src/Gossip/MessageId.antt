-- ===== src/Gossip/MessageId.antt =====
-- main.rs: the bytes whose digest is the id of a message.
use cl_p2p_setup.Base.{
  ℕ, suc, zero, ◌+◌, ◌*◌, ◌/◌, ◌^◌, ◌<◌, ◌≡◌, refl, sym, ap, ◌∙◌, [], ◌∷◌, ◌++◌, length, drop,
  arith,
}
use cl_p2p_setup.Base.Machine.{usize_mod}
use cl_p2p_setup.Rpc.Codec.{Bytes}
use cl_p2p_setup.Gossip.{GossipsubMessage, to_le_bytes, prefix}

abbrev of_le_bytes : Bytes → ℕ
of_le_bytes [] = 0
of_le_bytes (x ∷ bytes) = x + 256 * of_le_bytes bytes

of_le_bytes-to_le_bytes : (k n : ℕ) → n < 256 ^ k → of_le_bytes (to_le_bytes k n) ≡ n
of_le_bytes-to_le_bytes zero n h = omega (arith, h)
of_le_bytes-to_le_bytes (suc k) n h =
    omega (arith, h, of_le_bytes-to_le_bytes k (n / 256) (omega (arith, h)))

abbrev first : ℕ → Bytes → ℕ
first default [] = default
first default (x ∷ bytes) = x

-- Lists with fronts of one length that are equal have equal fronts, and equal rests.
append-injective : (a b x y : Bytes) → length a ≡ length b → a ++ x ≡ b ++ y → (a ≡ b) × (x ≡ y)
append-injective [] [] x y h e = (refl, e)
append-injective [] (v ∷ b) x y h e = ground arith
append-injective (u ∷ a) [] x y h e = ground arith
append-injective (u ∷ a) (v ∷ b) x y h e =
    let (same, rest) = append-injective a b x y (omega (arith, h)) (ap (drop 1) e) in
    (rw (ap (first u) e, same) refl, rest)

module _ {PeerId : Type 0} where
  -- Two messages whose topics are shorter than 2 ^ 64 bytes have the same bytes under one domain only
  -- if they have the same topic and the same data: neither runs into the other.
  pub prefix-injective :
      (domain : Bytes) (m m' : GossipsubMessage PeerId)
      → length m.topic < usize_mod
      → length m'.topic < usize_mod
      → prefix domain m ≡ prefix domain m'
      → (m.topic ≡ m'.topic) × (m.payload ≡ m'.payload)
  unfolding prefix
  prefix-injective domain m m' h h' e =
      let (same, front) = append-injective domain domain _ _ refl e in
      let (lengths, after) =
        append-injective (to_le_bytes 8 (length m.topic)) (to_le_bytes 8 (length m'.topic)) _ _ refl
          front in
      append-injective m.topic m'.topic _ _
        (sym (of_le_bytes-to_le_bytes 8 (length m.topic) (omega (arith, h)))
          ∙ ap of_le_bytes lengths
          ∙ of_le_bytes-to_le_bytes 8 (length m'.topic) (omega (arith, h')))
        after
