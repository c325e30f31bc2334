-- ===== src/Rpc/Behaviour/Order.antt =====
-- rpc/mod.rs: the order of the behaviour's queue.
use cl_p2p_setup.Base.{ℕ, suc, ◌≡◌, refl, sym, ◌∙◌, ap, List, [], ◌∷◌, ◌++◌, map, length}
use cl_p2p_setup.Base.Swarm.{Poll, ready, pending}
use cl_p2p_setup.Rpc.Methods.{RpcCodedResponse}
use cl_p2p_setup.Rpc.Outbound.{OutboundRequest}
use cl_p2p_setup.Rpc.Handler.{SubstreamId, RpcSend, HandlerEvent}
use cl_p2p_setup.Rpc.Behaviour.{
  NotifyHandler, any, BehaviourAction, notify_handler, generate_event, Rpc, new, send_response,
  send_request, inject_event, poll,
}

-- The calls that put something into the queue.
pub data Input (PeerId ConnectionId ReqId : Type 0) : Type 0 where
  responds :
      PeerId → ConnectionId × SubstreamId → RpcCodedResponse → Input PeerId ConnectionId ReqId
  requests : PeerId → ReqId → OutboundRequest → Input PeerId ConnectionId ReqId
  reports : PeerId → ConnectionId → HandlerEvent ReqId → Input PeerId ConnectionId ReqId

module _ {PeerId ConnectionId ReqId : Type 0} where
  -- What the swarm is to be asked for a call: a response goes to the connection of its stream, a request
  -- to any connection of the peer, and a report to the application.
  abbrev pub asked : Input PeerId ConnectionId ReqId → BehaviourAction PeerId ConnectionId ReqId
  asked (responds peer (conn, stream) response) =
      notify_handler peer (NotifyHandler.one conn) (RpcSend.response stream response)
  asked (requests peer id request) = notify_handler peer any (RpcSend.request id request)
  asked (reports peer conn event) =
      generate_event (record { peer_id = peer; conn_id = conn; event = event })

  unfoldable pub feed :
      List (Input PeerId ConnectionId ReqId)
      → Rpc PeerId ConnectionId ReqId
      → Rpc PeerId ConnectionId ReqId
  feed [] s = s
  feed (responds peer id response ∷ rest) s = feed rest (send_response s peer id response)
  feed (requests peer id request ∷ rest) s = feed rest (send_request s peer id request)
  feed (reports peer conn event ∷ rest) s = feed rest (inject_event s peer conn event)

  -- This many calls of `poll`, and their answers.
  unfoldable pub polls :
      ℕ
      → Rpc PeerId ConnectionId ReqId
      → Rpc PeerId ConnectionId ReqId × List (Poll (BehaviourAction PeerId ConnectionId ReqId))
  polls Prim.Native.Nat.zero s = (s, [])
  polls (suc n) s =
      let (s', answer) = poll s in let (s'', answers) = polls n s' in (s'', answer ∷ answers)

  append_snoc :
      (xs : List (BehaviourAction PeerId ConnectionId ReqId))
      (x : BehaviourAction PeerId ConnectionId ReqId)
      (ys : List (BehaviourAction PeerId ConnectionId ReqId))
      → (xs ++ x ∷ []) ++ ys ≡ xs ++ x ∷ ys
  append_snoc [] x ys = refl
  append_snoc (z ∷ xs) x ys = ap (λ r. z ∷ r) (append_snoc xs x ys)

  append_nil : (xs : List (BehaviourAction PeerId ConnectionId ReqId)) → xs ++ [] ≡ xs
  append_nil [] = refl
  append_nil (x ∷ xs) = ap (λ r. x ∷ r) (append_nil xs)

  feed-events :
      (inputs : List (Input PeerId ConnectionId ReqId)) (s : Rpc PeerId ConnectionId ReqId)
      → (feed inputs s).events ≡ s.events ++ map asked inputs
  unfolding feed send_response send_request inject_event
  feed-events [] s = sym (append_nil s.events)
  feed-events (responds peer (conn, stream) response ∷ rest) s =
      feed-events rest _ ∙ append_snoc s.events _ (map asked rest)
  feed-events (requests peer id request ∷ rest) s =
      feed-events rest _ ∙ append_snoc s.events _ (map asked rest)
  feed-events (reports peer conn event ∷ rest) s =
      feed-events rest _ ∙ append_snoc s.events _ (map asked rest)

  polls-queue :
      (queue : List (BehaviourAction PeerId ConnectionId ReqId))
      → polls (length queue) (record { events = queue }) ≡ (record { events = [] }, map ready queue)
  unfolding polls poll
  polls-queue [] = refl
  polls-queue (event ∷ rest) = ap (λ r. (r.0, ready event ∷ r.1)) (polls-queue rest)

  -- After any calls on a new behaviour, as many calls of `poll` answer with what was asked for, in the
  -- order of the calls, nothing lost and nothing added; the next call of `poll` is pending.
  pub polls-feed :
      (inputs : List (Input PeerId ConnectionId ReqId))
      → (polls (length (map asked inputs)) (feed inputs new) ≡ (new, map ready (map asked inputs)))
        × (poll (new {PeerId = PeerId} {ConnectionId = ConnectionId} {ReqId = ReqId})
            ≡ (new, pending))
  unfolding new poll
  polls-feed inputs = (
    ap (λ q. polls (length (map asked inputs)) (record { events = q })) (feed-events inputs new)
        ∙ polls-queue (map asked inputs),
    refl,
  )
