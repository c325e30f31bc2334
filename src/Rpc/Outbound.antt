-- ===== src/Rpc/Outbound.antt =====
-- rpc/protocol.rs: the requests of this node, and the upgrade of an outbound stream.
use cl_p2p_setup.Base.{ℕ, List, [], ◌∷◌}
use cl_p2p_setup.Base.Swarm.{Result, ok, err}
use cl_p2p_setup.Rpc.Methods.{StatusMessage, Ping}
use cl_p2p_setup.Rpc.Protocol.{Protocol, v1, v2, ProtocolId, new_protocol_id, RpcError}

pub data OutboundRequest : Type 0 where
  status : StatusMessage → OutboundRequest
  goodbye : ℕ → OutboundRequest
  ping : Ping → OutboundRequest
  meta_data : OutboundRequest

unfoldable pub supported_protocols : OutboundRequest → List ProtocolId
supported_protocols (status message) = new_protocol_id Protocol.status v1 ∷ []
supported_protocols (goodbye reason) = new_protocol_id Protocol.goodbye v1 ∷ []
supported_protocols (ping message) = new_protocol_id Protocol.ping v1 ∷ []
supported_protocols meta_data = new_protocol_id Protocol.meta_data v2 ∷ []

pub record OutboundRequestContainer : Type 0 where
  pub req : OutboundRequest

-- `protocol_info` of a container.
abbrev pub container_protocol_info : OutboundRequestContainer → List ProtocolId
container_protocol_info container = supported_protocols container.req

abbrev pub expected_responses : OutboundRequest → ℕ
expected_responses (status message) = 1
expected_responses (goodbye reason) = 0
expected_responses (ping message) = 1
expected_responses meta_data = 1

abbrev pub protocol : OutboundRequest → Protocol
protocol (status message) = Protocol.status
protocol (goodbye reason) = Protocol.goodbye
protocol (ping message) = Protocol.ping
protocol meta_data = Protocol.meta_data

-- `upgrade_outbound`, by what sending the request and closing the writing side end in; `Stream` is
-- the framed stream, which stays open for the response.
unfoldable pub upgrade_outbound :
    {Stream : Type 0} → (send close : Result (Unit {0}) RpcError) → Stream → Result Stream RpcError
upgrade_outbound (err e) close stream = err e
upgrade_outbound (ok sent) (err e) stream = err e
upgrade_outbound (ok sent) (ok closed) stream = ok stream
