-- ===== src/Enr.antt =====
-- enr.rs: the node's own record, the fork id in a record, and the peer id of a record. The library of
-- records, SSZ and the keys of libp2p are parameters.
pub mod OwnRecord
pub mod Tests
use cl_p2p_setup.Base.{ℕ, Option, none, some, List, [], ◌∷◌, String}
use cl_p2p_setup.Base.Swarm.{Result, ok, err}
use cl_p2p_setup.Base.Machine.{Outcome, returns, panics, ◌>>=◌}
use cl_p2p_setup.Rpc.Codec.{Bytes}
use cl_p2p_setup.Chain
use cl_p2p_setup.Chain.{ForkId, TreeHash}

abbrev pub eth2_enr_key : String
eth2_enr_key = "eth2"

-- The key of a record, with its bytes.
pub data CombinedPublicKey : Type 0 where
  secp256k1 ed25519 : Bytes → CombinedPublicKey

-- `discv5::enr`: a builder and its calls, and what is read of a record; and SSZ of a fork id.
pub record Library : Type 1 where
  pub Enr : Type 0
  pub CombinedKey : Type 0
  pub Builder : Type 0
  pub new_builder : String → Builder
  pub ip : Bytes → Builder → Builder
  pub udp4 : ℕ → Builder → Builder
  pub tcp4 : ℕ → Builder → Builder
  pub add_value : String → Bytes → Builder → Builder
  pub build : CombinedKey → Builder → Result Enr (Unit {0})
  pub get : String → Enr → Option Bytes
  pub tcp4_of : Enr → Option ℕ
  pub public_key : Enr → CombinedPublicKey
  pub encode_fork_id : ForkId → Bytes
  pub decode_fork_id : Bytes → Option ForkId

-- The keys of libp2p, from bytes, and the peer id of a key.
pub record Keys : Type 1 where
  pub PublicKey : Type 0
  pub PeerId : Type 0
  pub decode_secp256k1 : Bytes → Result PublicKey (Unit {0})
  pub decode_ed25519 : Bytes → Result PublicKey (Unit {0})
  pub from_public_key : PublicKey → PeerId

pub data ForkIdError : Type 0 where
  no_eth2_field undecodable : ForkIdError

-- `unwrap` and `expect` of a result.
abbrev pub unwrap : {A : Type 0} → Result A (Unit {0}) → Outcome A
unwrap (ok a) = returns a
unwrap (err e) = panics

module _ (lib : Library) where
  -- The address is `0.0.0.0`.
  unfoldable pub build_enr : TreeHash → lib.CombinedKey → Outcome lib.Enr
  build_enr hash combined_key = Chain.new hash >>= λ fork_id. unwrap (
      lib.build combined_key (
        lib.add_value eth2_enr_key (lib.encode_fork_id fork_id)
          (lib.tcp4 9000 (lib.udp4 9000 (lib.ip (0 ∷ 0 ∷ 0 ∷ 0 ∷ []) (lib.new_builder "v4"))))))

  unfoldable pub fork_id : lib.Enr → Result ForkId ForkIdError
  fork_id enr = elim (lib.get eth2_enr_key enr) [
    | none ↦ err no_eth2_field
    | some eth2_bytes ↦ elim (lib.decode_fork_id eth2_bytes) [
      | none ↦ err undecodable
      | some fork ↦ ok fork
    ]
  ]

  unfoldable pub as_peer_id : (keys : Keys) → lib.Enr → Outcome keys.PeerId
  as_peer_id keys enr = elim (lib.public_key enr) [
    | secp256k1 pk_bytes ↦
        unwrap (keys.decode_secp256k1 pk_bytes) >>= λ pk. returns (keys.from_public_key pk)
    | ed25519 pk_bytes ↦
        unwrap (keys.decode_ed25519 pk_bytes) >>= λ pk. returns (keys.from_public_key pk)
  ]
