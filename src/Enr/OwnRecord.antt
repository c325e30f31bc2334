-- ===== src/Enr/OwnRecord.antt =====
-- enr.rs and chain.rs: the fork id in the record that a node builds.
use cl_p2p_setup.Base.{
  le→leb, ℕ, ◌-◌, ◌^◌, ◌≡◌, refl, ap, some, [], ◌∷◌, length, length-take, take, arith,
}
use cl_p2p_setup.Base.Swarm.{Result, ok, err}
use cl_p2p_setup.Base.Machine.{returns, returns-injective}
use cl_p2p_setup.Rpc.Codec.{Bytes}
use cl_p2p_setup.Chain
use cl_p2p_setup.Chain.{
  ForkData, TreeHash, compute_fork_data_root, compute_fork_digest, bellatrix_fork_version,
  genesis_validators_root,
}
use cl_p2p_setup.Enr.{Library, eth2_enr_key, build_enr, fork_id, unwrap}

-- Where a record is built: an `eth2` field that was added last is read back, and it leaves the port
-- that was added before it. SSZ reads a fork id back. A root has 32 bytes.
pub record Laws (lib : Library) (hash : TreeHash) : Type 0 where
  pub get_eth2 :
      (key : lib.CombinedKey) (bytes : Bytes) (b : lib.Builder) (enr : lib.Enr)
      → lib.build key (lib.add_value eth2_enr_key bytes b) ≡ ok enr
      → lib.get eth2_enr_key enr ≡ some bytes
  pub get_tcp4 :
      (key : lib.CombinedKey) (port : ℕ) (bytes : Bytes) (b : lib.Builder) (enr : lib.Enr)
      → lib.build key (lib.add_value eth2_enr_key bytes (lib.tcp4 port b)) ≡ ok enr
      → lib.tcp4_of enr ≡ some port
  pub decode_encode :
      (fork : Chain.ForkId) → lib.decode_fork_id (lib.encode_fork_id fork) ≡ some fork
  pub root_size : (forked : ForkData) → length (hash.fork_data_root forked) ≡ 32

-- The node's fork data.
abbrev pub bellatrix : ForkData
bellatrix = record {
  current_version = bellatrix_fork_version;
  genesis_validators_root = genesis_validators_root;
}

pub unwrap-eq-returns :
    {A : Type 0} (r : Result A (Unit {0})) (a : A) → unwrap r ≡ returns a → r ≡ ok a
unwrap-eq-returns (ok b) a h = ap ok (returns-injective h)
unwrap-eq-returns (err e) a h = cc

module _ {lib : Library} {hash : TreeHash} (laws : Laws lib hash) where
  compute_fork_digest-returns :
      compute_fork_digest hash bellatrix_fork_version genesis_validators_root
      ≡ returns (take 4 (hash.fork_data_root bellatrix))
  unfolding compute_fork_digest compute_fork_data_root
  compute_fork_digest-returns =
      rw
        (le→leb 4 (length (hash.fork_data_root bellatrix))
          (omega (arith, laws.root_size bellatrix)))
        refl

  -- The record that a node builds has the port 9000, and the fork id that is read of it has the first 4
  -- bytes of the root of the fork data as its digest.
  pub fork_id-build_enr :
      (key : lib.CombinedKey) (enr : lib.Enr)
      → build_enr lib hash key ≡ returns enr
      → (fork : Chain.ForkId) × (fork_id lib enr ≡ ok fork)
        × (fork.fork_digest ≡ take 4 (hash.fork_data_root bellatrix))
        × (length fork.fork_digest ≡ 4)
        × (lib.tcp4_of enr ≡ some 9000)
  unfolding build_enr fork_id Chain.new
  fork_id-build_enr key enr h =
      let fork : Chain.ForkId = record {
        fork_digest = take 4 (hash.fork_data_root bellatrix);
        next_fork_version = bellatrix_fork_version;
        next_fork_epoch = 2 ^ 64 - 1;
      } in
      let b = lib.udp4 9000 (lib.ip (0 ∷ 0 ∷ 0 ∷ 0 ∷ []) (lib.new_builder "v4")) in
      let bytes = lib.encode_fork_id fork in
      let e =
        unwrap-eq-returns (lib.build key (lib.add_value eth2_enr_key bytes (lib.tcp4 9000 b))) enr
          (rw compute_fork_digest-returns at h) in
      (
        fork,
        rw (fork_id, laws.get_eth2 key bytes (lib.tcp4 9000 b) enr e, laws.decode_encode fork) refl,
        refl,
        omega (arith, laws.root_size bellatrix, length-take 4 (hash.fork_data_root bellatrix)),
        laws.get_tcp4 key 9000 bytes b enr e,
      )
