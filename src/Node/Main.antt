-- ===== src/Node/Main.antt =====
-- main.rs: the node from its start, at which it loads the peer data, to its end, at which it saves them.
mod Tests
use cl_p2p_setup.Base.{ℕ, Bool, Option, List, [], ◌∷◌, ◌++◌, String, ltb, if◌then◌else◌}
use cl_p2p_setup.Base.Machine.{Outcome, returns, ◌>>=◌, Profile}
use cl_p2p_setup.Rpc.Behaviour as RpcBehaviour
use cl_p2p_setup.PeerManager
use cl_p2p_setup.PeerManager.{PeerManager, Instant}
use cl_p2p_setup.PeerManager.Stored.{SerdeMillis, StoredPeer}
use cl_p2p_setup.PeerManager.Poll.{save_peer_data, load_peer_data}
use cl_p2p_setup.Discovery.{Discovery}
use cl_p2p_setup.Node.{Libraries, Behaviour}
use cl_p2p_setup.Node.Rounds.{Round, Sent, round}

abbrev pub target_num_peers : ℕ
target_num_peers = 16

-- What serde_json, serde_millis and the file system do with the peer data; see `save_peer_data` and
-- `load_peer_data`. The clocks that serde_millis reads are others at the start than at the end.
pub record Storage (libs : Libraries) : Type 0 where
  pub loading : SerdeMillis
  pub saving : SerdeMillis
  pub serialize : List (libs.records.PeerId × StoredPeer libs.records.Multiaddr) → Option String
  pub deserialize : String → Option (List (libs.records.PeerId × StoredPeer libs.records.Multiaddr))
  pub file : Option (Option String)
  pub write : String → Bool

module _ (libs : Libraries) (eq : Discrete libs.records.PeerId) (profile : Profile) where
  open libs.records use {PeerId, Multiaddr, Enr}
  open libs use {IdentifyInfo, Gossipsub}

  -- The loop. A round goes with what the clock showed when the pass of the loop that it belongs to began.
  unfoldable pub run :
      ℕ → List (Instant × Round libs) → Behaviour libs → Outcome (Behaviour libs × Sent libs)
  run time_to_stop [] s = returns (s, [])
  run time_to_stop ((now, first) ∷ more) s =
      if ltb now time_to_stop
      then (round libs eq profile s first >>= λ (s', sent).
          run time_to_stop more s' >>= λ (s'', sent'). returns (s'', sent ++ sent'))
      else returns (s, [])

  -- `main`, with discovery as it was set up and gossipsub with its topic, and with the rounds of the
  -- swarm. The text is what the file holds at the end.
  unfoldable pub main :
      Storage libs
      → Discovery Enr
      → Gossipsub
      → ℕ
      → List (Instant × Round libs)
      → (clock : ℕ → Instant) → Outcome (PeerManager PeerId Multiaddr IdentifyInfo × String)
  main storage discovery gossipsub time_to_stop swarm clock = do
    loaded ←
        load_peer_data storage.loading storage.deserialize storage.file
          (PeerManager.new target_num_peers)
    (s, sent) ← run time_to_stop swarm (record {
      gossipsub = gossipsub;
      discovery = discovery;
      rpc = RpcBehaviour.new;
      peer_manager = loaded;
    })
    save_peer_data eq storage.saving storage.serialize storage.write profile clock s.peer_manager
