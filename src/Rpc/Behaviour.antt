-- ===== src/Rpc/Behaviour.antt =====
-- rpc/mod.rs: the behaviour that queues what is for the handlers of connections and what they report.
mod Order
mod Tests
use cl_p2p_setup.Base.{Option, List, [], ◌∷◌, ◌++◌}
use cl_p2p_setup.Base.Swarm.{Poll, ready, pending}
use cl_p2p_setup.Rpc.Methods.{StatusMessage, RpcResponse, RpcCodedResponse, success}
use cl_p2p_setup.Rpc.Outbound.{OutboundRequest}
use cl_p2p_setup.Rpc.Handler.{SubstreamId, RpcSend, HandlerEvent}

pub data NotifyHandler (ConnectionId : Type 0) : Type 0 where
  one : ConnectionId → NotifyHandler ConnectionId
  any : NotifyHandler ConnectionId

pub record RpcMessage (PeerId ConnectionId ReqId : Type 0) : Type 0 where
  pub peer_id : PeerId
  pub conn_id : ConnectionId
  pub event : HandlerEvent ReqId

-- The actions that this behaviour asks of the swarm.
pub data BehaviourAction (PeerId ConnectionId ReqId : Type 0) : Type 0 where
  notify_handler :
      PeerId
      → NotifyHandler ConnectionId
      → RpcSend ReqId
      → BehaviourAction PeerId ConnectionId ReqId
  generate_event : RpcMessage PeerId ConnectionId ReqId → BehaviourAction PeerId ConnectionId ReqId

pub record Rpc (PeerId ConnectionId ReqId : Type 0) : Type 0 where
  pub events : List (BehaviourAction PeerId ConnectionId ReqId)

module _ {PeerId ConnectionId ReqId : Type 0} where
  unfoldable pub new : Rpc PeerId ConnectionId ReqId
  new = record { events = [] }

  unfoldable pub send_response :
      Rpc PeerId ConnectionId ReqId
      → PeerId
      → ConnectionId × SubstreamId
      → RpcCodedResponse
      → Rpc PeerId ConnectionId ReqId
  send_response s peer_id (conn_id, stream) event = record {
    events =
        s.events
        ++ notify_handler peer_id (NotifyHandler.one conn_id) (RpcSend.response stream event) ∷ [];
  }

  unfoldable pub send_request :
      Rpc PeerId ConnectionId ReqId
      → PeerId
      → ReqId
      → OutboundRequest
      → Rpc PeerId ConnectionId ReqId
  send_request s peer_id request_id event = record {
    events = s.events ++ notify_handler peer_id any (RpcSend.request request_id event) ∷ [];
  }

  unfoldable pub inject_event :
      Rpc PeerId ConnectionId ReqId
      → PeerId
      → ConnectionId
      → HandlerEvent ReqId
      → Rpc PeerId ConnectionId ReqId
  inject_event s peer_id conn_id event = record {
    events =
        s.events
        ++ generate_event (record { peer_id = peer_id; conn_id = conn_id; event = event }) ∷ [];
  }

  unfoldable pub poll :
      Rpc PeerId ConnectionId ReqId
      → Rpc PeerId ConnectionId ReqId × Poll (BehaviourAction PeerId ConnectionId ReqId)
  poll s = elim s.events [
    | event ∷ rest ↦ (record { events = rest }, ready event)
    | [] ↦ (s, pending)
  ]

pub data Request : Type 0 where
  status : StatusMessage → Request

pub data Response : Type 0 where
  status : StatusMessage → Response

abbrev pub outbound_request : Request → OutboundRequest
outbound_request (Request.status s) = OutboundRequest.status s

abbrev pub coded_response : Response → RpcCodedResponse
coded_response (Response.status s) = success (RpcResponse.status s)
