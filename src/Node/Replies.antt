-- ===== src/Node/Replies.antt =====
-- main.rs and rpc/mod.rs: the way of a request through the node, and the events that it cannot handle.
use cl_p2p_setup.Base.{ℕ, suc, zero, ◌≡◌, ◌↔◌, refl, ap, ◌∙◌, List, [], ◌∷◌, ◌++◌, map, length}
use cl_p2p_setup.Base.Swarm.{ok, err}
use cl_p2p_setup.Base.Machine.{returns, panics, Profile}
use cl_p2p_setup.Rpc.Methods.{RpcResponse}
use cl_p2p_setup.Rpc.Inbound
use cl_p2p_setup.Rpc.Inbound.{InboundRequest}
use cl_p2p_setup.Rpc.Handler.{SubstreamId, RpcSend, HandlerEvent, request, response}
use cl_p2p_setup.Rpc.Behaviour as RpcBehaviour
use cl_p2p_setup.Rpc.Behaviour.{
  Rpc, RpcMessage, BehaviourAction, NotifyHandler, notify_handler, generate_event, inject_event,
  send_response,
}
use cl_p2p_setup.Rpc.Codec.Items.{IsOfProtocol}
use cl_p2p_setup.PeerManager.{discover_peers, dial_peers}
use cl_p2p_setup.Node.{Libraries, Behaviour, BehaviourEvent, reply, on_rpc, on_behaviour_event}
use cl_p2p_setup.Node.Rounds.{Round, polls_rpc, tells_rpc, Sent, round, rounds}

reply-IsOfProtocol : (req : InboundRequest) → IsOfProtocol (Inbound.protocol req) (reply req)
reply-IsOfProtocol (InboundRequest.status m) = refl
reply-IsOfProtocol (InboundRequest.ping m) = refl
reply-IsOfProtocol InboundRequest.meta_data = refl
reply-IsOfProtocol (InboundRequest.goodbye n) = tt

module _ (libs : Libraries) where
  open libs.records use {PeerId}
  open libs use {ConnectionId, ReqId}

  -- What a handler is to be told.
  abbrev pub Command : Type 0
  Command = PeerId × NotifyHandler ConnectionId × RpcSend ReqId

  abbrev pub action : Command → BehaviourAction PeerId ConnectionId ReqId
  action (p, handler, event) = notify_handler p handler event

  abbrev pub poll_times : ℕ → List (Round libs)
  poll_times zero = []
  poll_times (suc n) = polls_rpc ∷ poll_times n

  abbrev with_queue :
      Behaviour libs → List (BehaviourAction PeerId ConnectionId ReqId) → Behaviour libs
  with_queue s events = record s { rpc = record { events = events } }

  abbrev message_in :
      RpcMessage PeerId ConnectionId ReqId
      → BehaviourEvent libs
      → RpcMessage PeerId ConnectionId ReqId
  message_in default (BehaviourEvent.rpc message) = message
  message_in default _ = default

  on_rpc-panics :
      (s : Behaviour libs) (message : RpcMessage PeerId ConnectionId ReqId)
      → on_rpc libs s message ≡ panics
      → (id : ReqId) × (r : RpcResponse) × (message.event ≡ ok (response id r))
  unfolding on_rpc
  on_rpc-panics s message h = by_event message.event h
    where
      by_event :
          (event : HandlerEvent ReqId)
          → elim event [
            | err e ↦ returns s
            | ok received ↦ elim received [
              | request substream req ↦ returns (record s {
                rpc = send_response s.rpc message.peer_id (message.conn_id, substream) (reply req);
              })
              | response id received_response ↦ panics
            ]
          ]
            ≡ panics
          → (id : ReqId) × (r : RpcResponse) × (event ≡ ok (response id r))
      by_event (err e) h = cc
      by_event (ok (request id req)) h = cc
      by_event (ok (response id r)) h = (id, r, refl)

  module _ (eq : Discrete PeerId) (profile : Profile) where
    -- Polls of the RPC behaviour bring out the commands that are first in the queue.
    poll_times-commands :
        (before : List Command) (rest : List (BehaviourAction PeerId ConnectionId ReqId))
        (more : List (Round libs)) (s s' : Behaviour libs) (sent : Sent libs)
        → rounds libs eq profile more (with_queue s rest) ≡ returns (s', sent)
        → rounds libs eq profile
            (poll_times (length before) ++ more)
            (with_queue s (map action before ++ rest))
          ≡ returns (s', map action before ++ sent)
    unfolding rounds round RpcBehaviour.poll
    poll_times-commands [] rest more s s' sent h = h
    poll_times-commands ((p, handler, event) ∷ before) rest more s s' sent h =
        rw (poll_times-commands before rest more s s' sent h) refl

    -- With commands waiting in the queue, a request that a handler reports is answered, once the queue
    -- is polled: behind what was waiting, the handler of that connection is told one reply for that
    -- stream, of the type of the request's protocol, and the node is as before, its queue empty.
    pub rounds-reply :
        (s : Behaviour libs) (before : List Command) (p : PeerId) (c : ConnectionId)
        (stream : SubstreamId) (req : InboundRequest)
        → s.rpc.events ≡ map action before
        → (rounds libs eq profile
              (tells_rpc p c (ok (request stream req))
                ∷ (poll_times (length before) ++ poll_times 2))
              s
            ≡ returns (
              record s { rpc = RpcBehaviour.new },
              map action before
                  ++ notify_handler p (NotifyHandler.one c) (RpcSend.response stream (reply req))
                    ∷ [],
            ))
          × IsOfProtocol (Inbound.protocol req) (reply req)
    unfolding rounds round RpcBehaviour.poll RpcBehaviour.new inject_event send_response on_rpc
        on_behaviour_event
    rounds-reply s before p c stream req e =
        let reported =
          generate_event (record { peer_id = p; conn_id = c; event = ok (request stream req) }) in
        let sent : Sent libs =
          notify_handler p (NotifyHandler.one c) (RpcSend.response stream (reply req)) ∷ [] in
        let polled =
          ap
            (λ q.
              rounds libs eq profile (poll_times (length before) ++ poll_times 2)
                (with_queue s (q ++ reported ∷ [])))
            e
          ∙ poll_times-commands before (reported ∷ []) (poll_times 2) s (with_queue s []) sent
              refl in
        (rw polled refl, reply-IsOfProtocol req)

    -- The node panics on an event of its behaviours exactly if it is a response to a request of its own.
    pub on_behaviour_event-eq-panics :
        (s : Behaviour libs) (event : BehaviourEvent libs)
        → (on_behaviour_event libs eq s event ≡ panics) ↔ (
            (message : RpcMessage PeerId ConnectionId ReqId) × (id : ReqId) × (r : RpcResponse)
            × (event ≡ BehaviourEvent.rpc message)
            × (message.event ≡ ok (response id r)))
    unfolding on_behaviour_event on_rpc
    on_behaviour_event-eq-panics s BehaviourEvent.gossipsub = (λ h. cc, λ h. cc)
    on_behaviour_event-eq-panics s BehaviourEvent.identify = (λ h. cc, λ h. cc)
    on_behaviour_event-eq-panics s (BehaviourEvent.discovery peers) = (λ h. cc, λ h. cc)
    on_behaviour_event-eq-panics s (BehaviourEvent.identify_received p info) = (λ h. cc, λ h. cc)
    on_behaviour_event-eq-panics s (BehaviourEvent.peer_manager (discover_peers n)) =
        (λ h. cc, λ h. cc)
    on_behaviour_event-eq-panics s (BehaviourEvent.peer_manager (dial_peers ps)) =
        (λ h. cc, λ h. cc)
    on_behaviour_event-eq-panics s (BehaviourEvent.rpc message) = (
      λ h. let (id, r, e) = on_rpc-panics s message h in (message, id, r, refl, e),
      λ (m, id, r, e, f). rw (on_rpc, ap (λ x. (message_in message x).event) e ∙ f) refl,
    )
