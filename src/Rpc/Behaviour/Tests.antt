-- ===== src/Rpc/Behaviour/Tests.antt =====
-- Calls on the RPC behaviour, and the theorem at them.
use cl_p2p_setup.Base.{ℕ, ◌≡◌, List, [], ◌∷◌, map, length}
use cl_p2p_setup.Base.Swarm.{ready, pending, err}
use cl_p2p_setup.Rpc.Methods.{RpcCodedResponse}
use cl_p2p_setup.Rpc.Outbound.{OutboundRequest}
use cl_p2p_setup.Rpc.Behaviour.{new, poll}
use cl_p2p_setup.Rpc.Behaviour.Order.{
  Input, responds, requests, reports, asked, feed, polls, polls-feed,
}

abbrev inputs : List (Input ℕ ℕ ℕ)
inputs =
    requests 1 7 OutboundRequest.meta_data
    ∷ responds 2 (4, 0) RpcCodedResponse.error
    ∷ reports 1 3 (err "RPC Error")
    ∷ []

polls-feed_example :
    (polls (length (map asked inputs)) (feed inputs new) ≡ (new, map ready (map asked inputs)))
    × (poll (new {PeerId = ℕ} {ConnectionId = ℕ} {ReqId = ℕ}) ≡ (new, pending))
polls-feed_example = polls-feed inputs
