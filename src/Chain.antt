-- ===== src/Chain.antt =====
-- chain.rs, with the constants of config.rs about the fork: fork ids and digests. Hashing of trees is a
-- library, and a `Hash256` is its bytes.
use cl_p2p_setup.Base.{ℕ, ◌-◌, ◌^◌, [], ◌∷◌, length, take, leb, if◌then◌else◌}
use cl_p2p_setup.Base.Machine.{Outcome, returns, panics, ◌>>=◌}
use cl_p2p_setup.Rpc.Codec.{Bytes}

abbrev pub bellatrix_fork_version : Bytes
bellatrix_fork_version = 2 ∷ 0 ∷ 0 ∷ 0 ∷ []

abbrev pub genesis_validators_root : Bytes
genesis_validators_root =
    75 ∷ 54 ∷ 61 ∷ 185 ∷ 78 ∷ 40 ∷ 97 ∷ 32 ∷ 215 ∷ 110 ∷ 185 ∷ 5 ∷ 52 ∷ 15 ∷ 221 ∷ 78 ∷ 84 ∷ 191
    ∷ 233 ∷ 240 ∷ 107 ∷ 243 ∷ 63 ∷ 246 ∷ 207 ∷ 90 ∷ 210 ∷ 127 ∷ 81 ∷ 27 ∷ 254 ∷ 149 ∷ []

pub record ForkId : Type 0 where
  pub fork_digest : Bytes
  pub next_fork_version : Bytes
  pub next_fork_epoch : ℕ

pub record ForkData : Type 0 where
  pub current_version : Bytes
  pub genesis_validators_root : Bytes

pub record SigningData : Type 0 where
  pub object_root : Bytes
  pub domain : Bytes

-- `tree_hash_root` of the two structs.
pub record TreeHash : Type 0 where
  pub fork_data_root : ForkData → Bytes
  pub signing_data_root : SigningData → Bytes

module _ (hash : TreeHash) where
  unfoldable pub compute_fork_data_root : Bytes → Bytes → Bytes
  compute_fork_data_root current_version root =
      hash.fork_data_root
        (record { current_version = current_version; genesis_validators_root = root })

  -- The slice of 4 bytes panics on less.
  unfoldable pub compute_fork_digest : Bytes → Bytes → Outcome Bytes
  compute_fork_digest current_version root =
      let hashed = compute_fork_data_root current_version root in
      if leb 4 (length hashed) then returns (take 4 hashed) else panics

  unfoldable pub new : Outcome ForkId
  new = compute_fork_digest bellatrix_fork_version genesis_validators_root >>= λ digest.
      returns (record {
        fork_digest = digest;
        next_fork_version = bellatrix_fork_version;
        next_fork_epoch = 2 ^ 64 - 1;
      })

  unfoldable pub signing_root : ForkData → Bytes → Bytes
  signing_root self domain =
      hash.signing_data_root (record { object_root = hash.fork_data_root self; domain = domain })
