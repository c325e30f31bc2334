-- ===== src/Node/Tests.antt =====
-- A small node, and the theorems there.
use cl_p2p_setup.PeerManager.Stored.{SerdeMillis}
use cl_p2p_setup.Base.{
  ◌-◌, ◌*◌, ◌+◌, ◌/◌, some, ℕ, ◌≡◌, ◌↔◌, refl, true, none, List, [], ◌∷◌, ◌++◌, map, ℕ_discrete,
  arith,
}
use cl_p2p_setup.Base.Swarm.{ready, pending, ok, err}
use cl_p2p_setup.Base.Machine.{returns, panics, checked, wrapping}
use cl_p2p_setup.Rpc.Methods.{RpcResponse, success}
use cl_p2p_setup.Rpc.Protocol.{ping}
use cl_p2p_setup.Rpc.Inbound.{InboundRequest}
use cl_p2p_setup.Rpc.Handler.{RpcSend, request, response}
use cl_p2p_setup.Rpc.Behaviour as RpcBehaviour
use cl_p2p_setup.Rpc.Behaviour.{RpcMessage, NotifyHandler, notify_handler}
use cl_p2p_setup.Rpc.Codec.Items.{IsOfProtocol}
use cl_p2p_setup.PeerManager
use cl_p2p_setup.PeerManager.{
  discover_peers, connection_closed, PeerManager, PeerData, ConnectionData, new_peer_data,
}
use cl_p2p_setup.PeerManager.Poll
use cl_p2p_setup.PeerManager.Poll.{Tick, load_peer_data}
use cl_p2p_setup.PeerManager.Invariant.{IsConsistent}
use cl_p2p_setup.PeerManager.Reach.{HasPolled}
use cl_p2p_setup.Discovery.Tests.{records, add_enr, looking}
use cl_p2p_setup.Discovery
use cl_p2p_setup.Discovery.{get_peers, poll_stream}
use cl_p2p_setup.Node.{
  Libraries, Behaviour, BehaviourEvent, behaviour, reply, on_rpc, on_behaviour_event,
}
use cl_p2p_setup.Node.Rounds.{
  Round, polls_discovery, polls_manager, polls_rpc, tells_rpc, receives, round, rounds,
}
use cl_p2p_setup.Node.Managed.{rounds-IsConsistent}
use cl_p2p_setup.Node.Replies.{
  Command, action, poll_times, rounds-reply, on_behaviour_event-eq-panics,
}
use cl_p2p_setup.Node.Waiting.{IsWaiting, rounds-waits}

-- Gossipsub is the list of its explicit peers.
abbrev pub libs : Libraries
libs = record {
  records = records;
  add_enr = add_enr;
  IdentifyInfo = ℕ;
  ConnectionId = ℕ;
  ReqId = ℕ;
  Gossipsub = List ℕ;
  add_explicit_peer = λ g p. p ∷ g;
}

abbrev fresh_node : Behaviour libs
fresh_node = record {
  gossipsub = [];
  discovery = looking;
  rpc = RpcBehaviour.new;
  peer_manager = PeerManager.new 16;
}

-- Two peers are found, and one is identified.
abbrev swarm : List (Round libs)
swarm =
    receives (behaviour (BehaviourEvent.discovery ((7, none) ∷ (8, none) ∷ [])))
    ∷ receives (behaviour (BehaviourEvent.identify_received 7 5))
    ∷ tells_rpc 7 1 (ok (request 0 InboundRequest.meta_data))
    ∷ polls_rpc
    ∷ []

abbrev after_swarm : Behaviour libs
after_swarm = record {
  gossipsub = [];
  discovery = looking;
  rpc = RpcBehaviour.send_response RpcBehaviour.new 7 (1, 0) (reply InboundRequest.meta_data);
  peer_manager =
      PeerManager.add_peer_identity ℕ_discrete
        (PeerManager.add_peers ℕ_discrete (PeerManager.new 16) ((7, none) ∷ (8, none) ∷ [])) 7 5;
}

runs : rounds libs ℕ_discrete wrapping swarm fresh_node ≡ returns (after_swarm, [])
unfolding rounds round on_behaviour_event RpcBehaviour.poll RpcBehaviour.inject_event
    RpcBehaviour.new on_rpc
runs = refl

-- An `Instant` is written as the milliseconds from 1000 nanoseconds on.
abbrev pub millis : SerdeMillis
millis = record {
  serialize = λ t. (t - 1000) / 1_000_000;
  deserialize = λ n. some (n * 1_000_000 + 1000);
}

starts :
    load_peer_data {PeerId = ℕ} {Multiaddr = ℕ × ℕ} {IdentifyInfo = ℕ} millis
      (λ text. none)
      none
      (PeerManager.new 16)
    ≡ returns fresh_node.peer_manager
unfolding load_peer_data
starts = refl

rounds-IsConsistent_example :
    IsConsistent ℕ_discrete after_swarm.peer_manager
    × ((ticks : List Tick)
        → HasPolled ℕ_discrete (Poll.poll ℕ_discrete wrapping ticks after_swarm.peer_manager))
rounds-IsConsistent_example =
    rounds-IsConsistent libs ℕ_discrete 16 fresh_node after_swarm swarm [] millis (λ text. none)
      none (omega arith) starts runs

abbrev waiting : List (Command libs)
waiting =
    (
      4,
      NotifyHandler.one 2,
      RpcSend.response 3 (success (RpcResponse.pong (record { payload = 0 }))),
    )
    ∷ []

abbrev busy : Behaviour libs
busy = record {
  gossipsub = [];
  discovery = looking;
  rpc = record { events = map (action libs) waiting };
  peer_manager = PeerManager.new 16;
}

abbrev pub ping_request : InboundRequest
ping_request = InboundRequest.ping (record { payload = 6 })

rounds-reply_example :
    (rounds libs ℕ_discrete checked
        (tells_rpc 7 1 (ok (request 0 ping_request)) ∷ (poll_times libs 1 ++ poll_times libs 2))
        busy
      ≡ returns (
        record busy { rpc = RpcBehaviour.new },
        map (action libs) waiting
            ++ notify_handler 7 (NotifyHandler.one 1) (RpcSend.response 0 (reply ping_request))
              ∷ [],
      ))
    × IsOfProtocol ping (reply ping_request)
rounds-reply_example = rounds-reply libs ℕ_discrete checked busy waiting 7 1 0 ping_request refl

abbrev answered : BehaviourEvent libs
answered = BehaviourEvent.rpc (record {
  peer_id = 7;
  conn_id = 1;
  event = ok (response 3 (RpcResponse.pong (record { payload = 6 })));
})

on_behaviour_event-eq-panics_example :
    (on_behaviour_event libs ℕ_discrete fresh_node answered ≡ panics) ↔ (
      (message : RpcMessage ℕ ℕ ℕ) × (id : ℕ) × (r : RpcResponse) × (answered
        ≡ BehaviourEvent.rpc message)
      × (message.event ≡ ok (response id r)))
on_behaviour_event-eq-panics_example =
    on_behaviour_event-eq-panics libs ℕ_discrete checked fresh_node answered

-- The manager waits, and a query fails.
abbrev stuck : Behaviour libs
stuck = record {
  gossipsub = [];
  discovery = looking;
  rpc = RpcBehaviour.new;
  peer_manager = record (PeerManager.new 16) { waiting_for_peer_discovery = true };
}

abbrev fruitless : List (Round libs)
fruitless =
    polls_discovery (record { results = err tt ∷ []; stream = pending })
    ∷ polls_manager []
    ∷ receives (behaviour (BehaviourEvent.identify_received 7 5))
    ∷ []

abbrev still_stuck : Behaviour libs
still_stuck = record {
  gossipsub = [];
  discovery = record looking { peers_future = 1 };
  rpc = RpcBehaviour.new;
  peer_manager =
      PeerManager.add_peer_identity ℕ_discrete
        (record (PeerManager.new 16) { waiting_for_peer_discovery = true }) 7 5;
}

searches : rounds libs ℕ_discrete checked fruitless stuck ≡ returns (still_stuck, [])
unfolding rounds round Discovery.poll get_peers Poll.poll Poll.beats on_behaviour_event poll_stream
searches = refl

rounds-waits_example :
    IsWaiting libs ℕ_discrete checked still_stuck
    × ((ticks : List Tick) (m : PeerManager.PeerManager ℕ (ℕ × ℕ) ℕ) (count : ℕ)
        → ¬ (
            Poll.poll ℕ_discrete checked ticks still_stuck.peer_manager
            ≡ returns (m, ready (discover_peers count))))
rounds-waits_example =
    rounds-waits libs ℕ_discrete checked stuck still_stuck fruitless [] (refl, refl)
      ((1, refl), (tt, (tt, tt))) searches
