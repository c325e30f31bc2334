-- ===== src/Node.antt =====
-- main.rs: the behaviours of a node and what the main loop does with the events of the swarm. The
-- logging is left out. Gossipsub is a library.
pub mod Rounds
pub mod Kept
pub mod Managed
pub mod Replies
pub mod Search
pub mod Aside
pub mod Waiting
pub mod Main
pub mod Tests
use cl_p2p_setup.Base.{ℕ, suc, zero, Bool, false, Option, List, [], ◌∷◌, ltb, if◌then◌else◌}
use cl_p2p_setup.Base.Swarm.{ok, err}
use cl_p2p_setup.Base.Machine.{Outcome, returns, panics, ◌>>=◌}
use cl_p2p_setup.Rpc.Methods.{RpcResponse, RpcCodedResponse, success, error}
use cl_p2p_setup.Rpc.Inbound.{InboundRequest}
use cl_p2p_setup.Rpc.Handler.{RpcReceived, request, response}
use cl_p2p_setup.Rpc.Behaviour.{Rpc, RpcMessage, send_response}
use cl_p2p_setup.PeerManager.{
  PeerManager, PeerManagerEvent, discover_peers, dial_peers, add_peers, add_peer_identity,
}
use cl_p2p_setup.Discovery.{Records, Discovery, set_peers_to_discover}

abbrev pub unset : ℕ → List Bool
unset zero = []
unset (suc n) = false ∷ unset n

-- What a request is answered with: the bit vectors have 64 and 4 bits.
abbrev pub reply : InboundRequest → RpcCodedResponse
reply (InboundRequest.status message) = success (RpcResponse.status message)
reply (InboundRequest.ping message) = success (RpcResponse.pong (record { payload = 0 }))
reply InboundRequest.meta_data =
    success
      (RpcResponse.meta_data (record { seq_number = 0; attnets = unset 64; syncnets = unset 4 }))
reply (InboundRequest.goodbye reason) = error

-- The types of the libraries, and the calls of gossipsub and discv5.
pub record Libraries : Type 1 where
  pub records : Records
  pub add_enr : List records.Enr → records.Enr → List records.Enr
  pub IdentifyInfo : Type 0
  pub ConnectionId : Type 0
  pub ReqId : Type 0
  pub Gossipsub : Type 0
  pub add_explicit_peer : Gossipsub → records.PeerId → Gossipsub

module _ (libs : Libraries) where
  open libs.records use {PeerId, Multiaddr, Enr}
  open libs use {IdentifyInfo, ConnectionId, ReqId, Gossipsub, add_explicit_peer}

  -- The behaviours. Identify is a library that the loop does not call.
  pub record Behaviour : Type 0 where
    pub gossipsub : Gossipsub
    pub discovery : Discovery Enr
    pub rpc : Rpc PeerId ConnectionId ReqId
    pub peer_manager : PeerManager PeerId Multiaddr IdentifyInfo

  -- `identify_received` is the event of identify that is acted on.
  pub data BehaviourEvent : Type 0 where
    gossipsub identify : BehaviourEvent
    discovery : List (PeerId × Option Multiaddr) → BehaviourEvent
    rpc : RpcMessage PeerId ConnectionId ReqId → BehaviourEvent
    identify_received : PeerId → IdentifyInfo → BehaviourEvent
    peer_manager : PeerManagerEvent PeerId → BehaviourEvent

  -- `connection` is an event of the swarm that is only logged.
  pub data SwarmEvent : Type 0 where
    behaviour : BehaviourEvent → SwarmEvent
    connection : SwarmEvent

  -- The loop over the peers that were dialled.
  unfoldable pub add_explicit_peers : List PeerId → Gossipsub → Gossipsub
  add_explicit_peers [] g = g
  add_explicit_peers (peer_id ∷ rest) g = add_explicit_peers rest (add_explicit_peer g peer_id)

  -- The `match` on an RPC message. A response is a `todo!()`, and an error is logged.
  unfoldable pub on_rpc : Behaviour → RpcMessage PeerId ConnectionId ReqId → Outcome Behaviour
  on_rpc s message = elim message.event [
    | err e ↦ returns s
    | ok received ↦ elim received [
      | request substream inbound_req ↦ returns (record s {
        rpc = send_response s.rpc message.peer_id (message.conn_id, substream) (reply inbound_req);
      })
      | response id received_response ↦ panics
    ]
  ]

  module _ (eq : Discrete PeerId) where
    unfoldable pub on_behaviour_event : Behaviour → BehaviourEvent → Outcome Behaviour
    on_behaviour_event s gossipsub = returns s
    on_behaviour_event s identify = returns s
    on_behaviour_event s (discovery peers) =
        returns (record s { peer_manager = add_peers eq s.peer_manager peers })
    on_behaviour_event s (rpc message) = on_rpc s message
    on_behaviour_event s (identify_received peer_id info) =
        returns (record s { peer_manager = add_peer_identity eq s.peer_manager peer_id info })
    on_behaviour_event s (peer_manager (discover_peers num_peers)) =
        returns (record s { discovery = set_peers_to_discover s.discovery num_peers })
    on_behaviour_event s (peer_manager (dial_peers peer_ids)) =
        returns (record s { gossipsub = add_explicit_peers peer_ids s.gossipsub })

    abbrev pub on_swarm_event : Behaviour → SwarmEvent → Outcome Behaviour
    on_swarm_event s (behaviour event) = on_behaviour_event s event
    on_swarm_event s connection = returns s
