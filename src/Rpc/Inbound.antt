-- ===== src/Rpc/Inbound.antt =====
-- rpc/protocol.rs: the requests of other nodes, and the upgrade of an inbound stream.
use cl_p2p_setup.Base.{ℕ}
use cl_p2p_setup.Base.Swarm.{Result, ok, err}
use cl_p2p_setup.Rpc.Methods.{StatusMessage, Ping}
use cl_p2p_setup.Rpc.Protocol.{Protocol, RpcError, error}

pub data InboundRequest : Type 0 where
  status : StatusMessage → InboundRequest
  goodbye : ℕ → InboundRequest
  ping : Ping → InboundRequest
  meta_data : InboundRequest

abbrev pub expected_responses : InboundRequest → ℕ
expected_responses (status message) = 1
expected_responses (goodbye reason) = 0
expected_responses (ping message) = 1
expected_responses meta_data = 1

abbrev pub protocol : InboundRequest → Protocol
protocol (status message) = Protocol.status
protocol (goodbye reason) = Protocol.goodbye
protocol (ping message) = Protocol.ping
protocol meta_data = Protocol.meta_data

-- What the first read of the stream, under `REQUEST_TIMEOUT`, ends in.
pub data FirstRead : Type 0 where
  elapsed closed : FirstRead
  decoded : Result InboundRequest RpcError → FirstRead

-- `upgrade_inbound`. The stream of a `MetaData` request is not read.
unfoldable pub upgrade_inbound : Protocol → FirstRead → Result InboundRequest RpcError
upgrade_inbound Protocol.meta_data first = ok meta_data
upgrade_inbound _ elapsed = err error
upgrade_inbound _ (decoded (ok request)) = ok request
upgrade_inbound _ (decoded (err e)) = err e
upgrade_inbound _ closed = err error
