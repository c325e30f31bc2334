-- ===== src/Node/Search/Tests.antt =====
-- A search for peers in a small node, with a request in between.
use cl_p2p_setup.Base.{ℕ, ◌≡◌, refl, true, false, List, [], ◌∷◌, ◌++◌, is_some, ℕ_discrete}
use cl_p2p_setup.Base.Lists.{All}
use cl_p2p_setup.Base.Swarm.{pending, ok}
use cl_p2p_setup.Base.Tables.{lookup}
use cl_p2p_setup.Base.Machine.{returns, checked}
use cl_p2p_setup.Rpc.Handler.{RpcSend, request}
use cl_p2p_setup.Rpc.Behaviour as RpcBehaviour
use cl_p2p_setup.Rpc.Behaviour.{RpcMessage, NotifyHandler, notify_handler}
use cl_p2p_setup.PeerManager
use cl_p2p_setup.PeerManager.{
  discover_peers, connection_closed, PeerManager, PeerData, ConnectionData, new_peer_data,
}
use cl_p2p_setup.PeerManager.Poll
use cl_p2p_setup.PeerManager.Poll.{Tick, load_peer_data}
use cl_p2p_setup.Discovery.Tests.{records, add_enr, looking}
use cl_p2p_setup.Discovery.Find.{failures}
use cl_p2p_setup.Node.{Behaviour, reply, on_rpc, on_behaviour_event}
use cl_p2p_setup.Node.Rounds.{
  Sent, Round, polls_discovery, polls_manager, polls_rpc, tells_rpc, round, rounds,
}
use cl_p2p_setup.Node.Search.{asked, searching, rounds-search}
use cl_p2p_setup.Node.Tests.{libs, ping_request}

-- The manager lacks three peers.
abbrev short : Behaviour libs
short = record {
  gossipsub = [];
  discovery = looking;
  rpc = RpcBehaviour.new;
  peer_manager = record (PeerManager.new 16) { peers_to_discover = 3 };
}

-- A request arrives while the query is under way.
abbrev meanwhile : List (Round libs)
meanwhile = tells_rpc 7 1 (ok (request 0 ping_request)) ∷ polls_rpc ∷ polls_rpc ∷ []

abbrev told : Sent libs
told = notify_handler 7 (NotifyHandler.one 1) (RpcSend.response 0 (reply ping_request)) ∷ []

abbrev waits_now : Behaviour libs
waits_now =
    asked libs ℕ_discrete checked short
      (record (PeerManager.new 16) { waiting_for_peer_discovery = true }) 3

abbrev queried : Behaviour libs
queried = searching libs ℕ_discrete checked waits_now

idles : rounds libs ℕ_discrete checked [] waits_now ≡ returns (waits_now, [])
unfolding rounds
idles = refl

tells : rounds libs ℕ_discrete checked meanwhile queried ≡ returns (queried, told)
unfolding rounds round on_behaviour_event RpcBehaviour.poll RpcBehaviour.inject_event
    RpcBehaviour.send_response RpcBehaviour.new on_rpc
tells = refl

rounds-search_example :
    (s' : Behaviour libs) × (rounds libs ℕ_discrete checked
        (polls_manager []
          ∷ polls_discovery (record { results = []; stream = pending })
          ∷ (meanwhile
              ++ polls_discovery (record {
                results = failures records ℕ_discrete add_enr 1 (ok (5 ∷ 6 ∷ []) ∷ []);
                stream = pending;
              })
                ∷ []))
        short
      ≡ returns (s', told))
    × (s'.peer_manager.waiting_for_peer_discovery ≡ false)
    × (s'.discovery.peers_future ≡ 0)
    × All
        (λ (enr : ℕ).
          (p : ℕ) × (returns enr ≡ returns p)
          × (is_some (lookup ℕ_discrete p s'.peer_manager.peer_data) ≡ true))
        (5 ∷ 6 ∷ [])
unfolding Poll.poll PeerManager.new
rounds-search_example =
    rounds-search libs ℕ_discrete checked short waits_now queried [] 3 _ 1
      (record { results = []; stream = pending }) 1 (5 ∷ 6 ∷ []) [] pending [] meanwhile [] told
      ((5, refl), ((6, refl), tt)) refl refl tt idles (tt, (tt, (tt, tt))) tells
