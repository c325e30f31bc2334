-- ===== src/Discovery/Setup.antt =====
-- discovery.rs: how the behaviour is set up, and its records as those of enr.rs.
use cl_p2p_setup.Base.{
  ℕ, ◌<◌, ◌≡◌, refl, sym, ap, ◌∙◌, subst, take, true, false, Option, none, some, List, [], ◌∷◌,
  String, if_pos,
}
use cl_p2p_setup.Base.Swarm.{Result, ok, err, pending}
use cl_p2p_setup.Base.Machine.{Outcome, returns, ◌>>=◌, returns-injective, >>=-eq-returns}
use cl_p2p_setup.Rpc.Codec.{Bytes}
use cl_p2p_setup.Chain.{ForkId, TreeHash}
use cl_p2p_setup.Enr
use cl_p2p_setup.Enr.{Library, Keys, build_enr, fork_id, unwrap}
use cl_p2p_setup.Enr.OwnRecord
use cl_p2p_setup.Enr.OwnRecord.{fork_id-build_enr}
use cl_p2p_setup.Discovery
use cl_p2p_setup.Discovery.{Records, Discovery, Answers, is_wanted, poll}
use cl_p2p_setup.Discovery.Find.{poll-starts}

-- `libp2p::core::identity::Keypair`; the parts of a key are its bytes.
pub data Keypair : Type 0 where
  ed25519 secp256k1 : Bytes → Keypair

-- `Discv5`: whether the key, the config and the record make one, whether a record is added, and whether
-- the service starts. `signing_key` is that of a secret key, and `from_str` reads a record.
pub record Discv5 (Enr CombinedKey : Type 0) : Type 0 where
  pub signing_key : Bytes → Result CombinedKey (Unit {0})
  pub create : Enr → CombinedKey → Result (Unit {0}) (Unit {0})
  pub from_str : String → Result Enr (Unit {0})
  pub add_enr : List Enr → Enr → Result (List Enr) (Unit {0})
  pub start : Result (Unit {0}) (Unit {0})

module _ (lib : Library) where
  -- What is read of records, by enr.rs. The addresses are given.
  abbrev pub records_of :
      {Ip Multiaddr : Type 0}
      → (keys : Keys) → (ip4 : lib.Enr → Option Ip) → (multiaddr : Ip → ℕ → Multiaddr) → Records
  records_of {Ip} {Multiaddr} keys ip4 multiaddr = record {
    Enr = lib.Enr;
    PeerId = keys.PeerId;
    Digest = Bytes;
    Ip = Ip;
    Multiaddr = Multiaddr;
    fork_digest = λ enr. elim (fork_id lib enr) [ err e ↦ none | ok fork ↦ some fork.fork_digest ];
    as_peer_id = Enr.as_peer_id lib keys;
    ip4 = ip4;
    tcp4 = lib.tcp4_of;
    multiaddr = multiaddr;
  }

  fork_digest-own :
      {Ip Multiaddr : Type 0}
      → (keys : Keys) (ip4 : lib.Enr → Option Ip) (multiaddr : Ip → ℕ → Multiaddr) (enr : lib.Enr)
        (fork : ForkId)
      → fork_id lib enr ≡ ok fork
      → (records_of keys ip4 multiaddr).fork_digest enr ≡ some fork.fork_digest
  fork_digest-own keys ip4 multiaddr enr fork e = rw (records_of, e) refl

  is_wanted-own :
      {Ip Multiaddr : Type 0}
      → (keys : Keys) (ip4 : lib.Enr → Option Ip) (multiaddr : Ip → ℕ → Multiaddr)
        (digests : Discrete Bytes) (enr : lib.Enr) (fork : ForkId) (port : ℕ)
      → fork_id lib enr ≡ ok fork
      → lib.tcp4_of enr ≡ some port
      → is_wanted (records_of keys ip4 multiaddr) digests fork.fork_digest enr ≡ true
  unfolding is_wanted
  is_wanted-own keys ip4 multiaddr digests enr fork port e f =
      rw (is_wanted, e, f) (if_pos (digests fork.fork_digest fork.fork_digest) refl true false)

  module _ (hash : TreeHash) (discv : Discv5 lib.Enr lib.CombinedKey) where
    unfoldable pub key_from_libp2p : Keypair → Outcome (Result lib.CombinedKey (Unit {0}))
    key_from_libp2p (secp256k1 secret) =
        unwrap (discv.signing_key secret) >>= λ key. returns (ok key)
    key_from_libp2p (ed25519 key) = returns (err tt)

    -- The loop over the boot nodes.
    unfoldable pub add_bootnodes : List String → List lib.Enr → Outcome (List lib.Enr)
    add_bootnodes [] enrs = returns enrs
    add_bootnodes (bootnode ∷ rest) enrs = do
      enr ← unwrap (discv.from_str bootnode)
      enrs' ← unwrap (discv.add_enr enrs enr)
      add_bootnodes rest enrs'

    -- `new`.
    unfoldable pub set_up : List String → Keypair → Outcome (Discovery lib.Enr)
    set_up bootnodes local_key = do
      combined ← key_from_libp2p local_key
      enr_key ← unwrap combined
      local_enr ← build_enr lib hash enr_key
      made ← unwrap (discv.create local_enr enr_key)
      enrs ← add_bootnodes bootnodes []
      started ← unwrap discv.start
      returns (Discovery.new local_enr enrs)

    -- A set-up that returns has a secp256k1 key, of which it has built the node's record, and no peers to
    -- look for yet.
    set_up-eq-returns :
        (bootnodes : List String) (local_key : Keypair) (s : Discovery lib.Enr)
        → set_up bootnodes local_key ≡ returns s
        → (secret : Bytes) × (key : lib.CombinedKey) × (enrs : List lib.Enr) × (local_key
            ≡ secp256k1 secret)
          × (build_enr lib hash key ≡ returns s.enr)
          × (s ≡ Discovery.new s.enr enrs)
    unfolding set_up key_from_libp2p Discovery.new
    set_up-eq-returns bootnodes (ed25519 secret) s h = cc
    set_up-eq-returns bootnodes (secp256k1 secret) s h =
        let (combined, e, h) =
          >>=-eq-returns (unwrap (discv.signing_key secret) >>= λ key. returns (ok key)) _ h in
        let (key, f, h) = >>=-eq-returns (unwrap combined) _ h in
        let (enr, g, h) = >>=-eq-returns (build_enr lib hash key) _ h in
        let (made, i, h) = >>=-eq-returns (unwrap (discv.create enr key)) _ h in
        let (enrs, j, h) = >>=-eq-returns (add_bootnodes bootnodes []) _ h in
        let (started, k, h) = >>=-eq-returns (unwrap discv.start) _ h in
        let same = returns-injective h in
        (
          secret,
          key,
          enrs,
          refl,
          g ∙ ap (λ (d : Discovery lib.Enr). returns d.enr) same,
          sym same ∙ ap (λ (d : Discovery lib.Enr). Discovery.new d.enr enrs) same,
        )

    module _ (laws : OwnRecord.Laws lib hash) {Ip Multiaddr : Type 0} (keys : Keys)
        (ip4 : lib.Enr → Option Ip) (multiaddr : Ip → ℕ → Multiaddr) (eq : Discrete keys.PeerId)
        (digests : Discrete Bytes) (learn : List lib.Enr → lib.Enr → List lib.Enr) where
      -- Where the set-up of discovery returns: the key of the node is a secp256k1 key; the node's own
      -- record passes the test by which it looks for others, with the first 4 bytes of the root of its
      -- fork data as the digest; and the first poll with peers to look for starts a query and forgets
      -- their number.
      pub set_up-poll :
          (bootnodes : List String) (local_key : Keypair) (count : ℕ) (answers : Answers lib.Enr)
          (s : Discovery lib.Enr)
          → set_up bootnodes local_key ≡ returns s
          → 0 < count
          → (secret : Bytes) × (local_key ≡ secp256k1 secret)
            × (is_wanted
                  (records_of keys ip4 multiaddr)
                  digests
                  (take 4 (hash.fork_data_root OwnRecord.bellatrix))
                  s.enr
                ≡ true)
            × (poll
                  (records_of keys ip4 multiaddr)
                  eq
                  learn
                  answers
                  (Discovery.set_peers_to_discover s count)
                ≡ returns (record s { peers_future = 1; started = true }, pending))
      unfolding Discovery.new Discovery.set_peers_to_discover
      set_up-poll bootnodes local_key count answers s h lt =
          let (secret, key, enrs, secp, built, fresh) = set_up-eq-returns bootnodes local_key s h in
          let (fork, read, digest, size, port) = fork_id-build_enr laws key s.enr built in
          let starts =
            poll-starts (records_of keys ip4 multiaddr) eq learn fork.fork_digest answers
              (record s { peers_to_discover = count })
              (fork_digest-own keys ip4 multiaddr s.enr fork read) lt in
          (
            secret,
            secp,
            subst (λ d. is_wanted (records_of keys ip4 multiaddr) digests d s.enr ≡ true) digest
                (is_wanted-own keys ip4 multiaddr digests s.enr fork 9000 read port),
            starts ∙ rw (ap (λ d. d.peers_future) fresh, ap (λ d. d.peers_to_discover) fresh) refl,
          )
