-- ===== src/Discovery/Tests.antt =====
-- Discovery on small records, and the theorems at them.
use cl_p2p_setup.Base.{
  ℕ, take, ◌+◌, ◌≡◌, refl, true, false, Option, none, some, List, [], ◌∷◌, ℕ_discrete, arith,
}
use cl_p2p_setup.Base.Lists.{All}
use cl_p2p_setup.Base.Swarm.{ready, pending, ok}
use cl_p2p_setup.Base.Tables.{lookup}
use cl_p2p_setup.Base.Machine.{returns}
use cl_p2p_setup.Rpc.Codec.{Bytes}
use cl_p2p_setup.Enr.Tests.{own_record, small, small_laws, zero_hash}
use cl_p2p_setup.Discovery.{Records, Discovery, awaiting, poll, is_wanted, set_peers_to_discover}
use cl_p2p_setup.Discovery.Setup.{
  Discv5, secp256k1, records_of, key_from_libp2p, add_bootnodes, set_up, set_up-poll,
}
use cl_p2p_setup.Discovery
use cl_p2p_setup.Chain
use cl_p2p_setup.Enr.{Keys, build_enr}
use cl_p2p_setup.Enr.OwnRecord.{bellatrix}
use mathlib.Core.List.{List-discrete}
use cl_p2p_setup.Discovery.Find.{IsListed, IsFound, Peers, failures, poll-found}

-- A record is its peer id, and its address has the port 9000.
abbrev pub records : Records
records = record {
  Enr = ℕ;
  PeerId = ℕ;
  Digest = ℕ;
  Ip = ℕ;
  Multiaddr = ℕ × ℕ;
  fork_digest = λ enr. some 1;
  as_peer_id = returns;
  ip4 = λ enr. some (enr + 100);
  tcp4 = λ enr. some 9000;
  multiaddr = λ ip port. (ip, port);
}

abbrev pub add_enr : List ℕ → ℕ → List ℕ
add_enr discv5 enr = enr ∷ discv5

-- Two queries are under way.
abbrev pub looking : Discovery ℕ
looking = record {
  discv5 = [];
  enr = 0;
  event_stream = awaiting;
  peers_future = 2;
  peers_to_discover = 0;
  started = true;
}

poll-found_example :
    (s' : Discovery ℕ) × (peers : Peers records ℕ_discrete add_enr) × (poll records ℕ_discrete
        add_enr
        (record {
          results = failures records ℕ_discrete add_enr 1 (ok (5 ∷ 6 ∷ []) ∷ []);
          stream = pending;
        })
        looking
      ≡ returns (s', ready peers))
    × (s'.peers_future ≡ 0)
    × All (IsListed records ℕ_discrete add_enr peers) (5 ∷ 6 ∷ [])
    × ((p : ℕ) (a : Option (ℕ × ℕ))
        → lookup ℕ_discrete p peers ≡ some a
        → IsFound records ℕ_discrete add_enr (5 ∷ 6 ∷ []) p a)
poll-found_example =
    poll-found records ℕ_discrete add_enr 1 (5 ∷ 6 ∷ []) [] pending looking
      ((5, refl), ((6, refl), tt)) refl

-- Any text is a record, and any bytes are a key.
abbrev service : Discv5 small.Enr small.CombinedKey
service = record {
  signing_key = ok;
  create = λ enr key. ok tt;
  from_str = λ text. ok (none, none);
  add_enr = λ enrs enr. ok (enr ∷ enrs);
  start = ok tt;
}

-- Any bytes are a key, and any key is the peer 3.
abbrev any_keys : Keys
any_keys = record {
  PublicKey = Bytes;
  PeerId = ℕ;
  decode_secp256k1 = ok;
  decode_ed25519 = ok;
  from_public_key = λ key. 3;
}

abbrev small_records : Records
small_records =
    records_of small {Ip = ℕ} {Multiaddr = ℕ × ℕ} any_keys (λ enr. none) (λ ip port. (ip, port))

-- A node with one boot node.
abbrev set_up_node : Discovery small.Enr
set_up_node = record {
  discv5 = (none, none) ∷ [];
  enr = own_record;
  event_stream = awaiting;
  peers_future = 0;
  peers_to_discover = 0;
  started = false;
}

sets_up :
    set_up small zero_hash service ("enr:-Ku4" ∷ []) (secp256k1 (7 ∷ [])) ≡ returns set_up_node
unfolding set_up key_from_libp2p add_bootnodes Discovery.new build_enr Chain.new
    Chain.compute_fork_digest Chain.compute_fork_data_root
sets_up = refl

set_up-poll_example :
    (secret : Bytes) × (secp256k1 (7 ∷ []) ≡ secp256k1 secret)
    × (is_wanted small_records
          (List-discrete ℕ_discrete)
          (take 4 (zero_hash.fork_data_root bellatrix))
          set_up_node.enr
        ≡ true)
    × (poll small_records ℕ_discrete
          (λ enrs enr. enr ∷ enrs)
          (record { results = []; stream = pending })
          (set_peers_to_discover set_up_node 5)
        ≡ returns (record set_up_node { peers_future = 1; started = true }, pending))
set_up-poll_example =
    set_up-poll small zero_hash service small_laws {Ip = ℕ} {Multiaddr = ℕ × ℕ} any_keys
      (λ enr. none) (λ ip port. (ip, port)) ℕ_discrete (List-discrete ℕ_discrete)
      (λ enrs enr. enr ∷ enrs) ("enr:-Ku4" ∷ []) (secp256k1 (7 ∷ [])) 5
      (record { results = []; stream = pending }) set_up_node sets_up (omega arith)
