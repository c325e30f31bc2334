-- ===== src/Node/Main/Tests.antt =====
-- A node that finds one peer and ends.
use cl_p2p_setup.Base.{ℕ, ◌≡◌, refl, true, none, some, [], ◌∷◌, ℕ_discrete}
use cl_p2p_setup.Base.Tables.{lookup, insert}
use cl_p2p_setup.Base.Machine.{returns, checked}
use cl_p2p_setup.PeerManager
use cl_p2p_setup.PeerManager.{
  discover_peers, connection_closed, PeerManager, PeerData, ConnectionData, new_peer_data,
}
use cl_p2p_setup.PeerManager.Poll
use cl_p2p_setup.PeerManager.Poll.{Tick, load_peer_data}
use cl_p2p_setup.Discovery.Tests.{looking}
use cl_p2p_setup.Node.{BehaviourEvent, behaviour, on_behaviour_event}
use cl_p2p_setup.Node.Rounds.{polls_rpc, receives, round}
use cl_p2p_setup.Node.Main.{Storage, run, main}
use cl_p2p_setup.Node.Tests.{libs, millis}

-- There is no file; any table is written.
abbrev storage : Storage libs
storage = record {
  loading = millis;
  saving = millis;
  serialize = λ stored. some "{}";
  deserialize = λ text. none;
  file = none;
  write = λ text. true;
}

abbrev ended : PeerManager ℕ (ℕ × ℕ) ℕ
ended = PeerManager.add_peers ℕ_discrete (PeerManager.new 16) ((7, none) ∷ [])

ends :
    main libs ℕ_discrete checked storage looking [] 100
      ((20, receives (behaviour (BehaviourEvent.discovery ((7, none) ∷ []))))
        ∷ (100, polls_rpc)
        ∷ [])
      (λ n. 200)
    ≡ returns (ended, "{}")
unfolding main load_peer_data run round on_behaviour_event Poll.save_peer_data
    Poll.disconnect_all_peers Poll.close_all PeerManager.add_peers PeerManager.add_each lookup
    PeerManager.new insert
ends = refl
