-- ===== src/Node/Kept.antt =====
-- main.rs: the events of the RPC behaviour leave the manager and discovery alone.
use cl_p2p_setup.Base.{◌≡◌, refl, ap, subst, []}
use cl_p2p_setup.Base.Swarm.{Poll, ready, pending, ok, err}
use cl_p2p_setup.Base.Machine.{returns, panics, Profile, returns-injective, >>=-eq-returns}
use cl_p2p_setup.Rpc.Handler.{HandlerEvent, request, response}
use cl_p2p_setup.Rpc.Behaviour as RpcBehaviour
use cl_p2p_setup.Rpc.Behaviour.{Rpc, RpcMessage, BehaviourAction, notify_handler, generate_event}
use cl_p2p_setup.Node.{Libraries, Behaviour, reply, on_rpc, on_behaviour_event}
use cl_p2p_setup.Node.Rounds.{polls_rpc, Sent, on_action, round}

module _ (libs : Libraries) where
  -- The two nodes have the same manager and the same discovery.
  abbrev pub HasKept : Behaviour libs → Behaviour libs → Type 0
  HasKept s t = (t.peer_manager ≡ s.peer_manager) × (t.discovery ≡ s.discovery)

  pub on_rpc-HasKept :
      (s t : Behaviour libs) (message : RpcMessage libs.records.PeerId libs.ConnectionId libs.ReqId)
      → on_rpc libs s message ≡ returns t
      → HasKept s t
  unfolding on_rpc
  on_rpc-HasKept s t message h = by_event message.event h
    where
      by_event :
          (event : HandlerEvent libs.ReqId)
          → elim event [
            | err e ↦ returns s
            | ok received ↦ elim received [
              | request substream req ↦ returns (record s {
                rpc =
                    RpcBehaviour.send_response s.rpc message.peer_id
                      (message.conn_id, substream)
                      (reply req);
              })
              | response id received_response ↦ panics
            ]
          ]
            ≡ returns t
          → HasKept s t
      by_event (err e) h = subst (HasKept s) (returns-injective h) (refl, refl)
      by_event (ok (request id req)) h = subst (HasKept s) (returns-injective h) (refl, refl)
      by_event (ok (response id req)) h = cc

  pub polls_rpc-HasKept :
      (eq : Discrete libs.records.PeerId) (profile : Profile) (s : Behaviour libs)
      (out : Behaviour libs × Sent libs)
      → round libs eq profile s polls_rpc ≡ returns out
      → HasKept s out.0
  unfolding round on_behaviour_event
  polls_rpc-HasKept eq profile s out h =
      by_answer (RpcBehaviour.poll s.rpc).0 (RpcBehaviour.poll s.rpc).1 h
    where
      by_answer :
          (q : Rpc libs.records.PeerId libs.ConnectionId libs.ReqId) (answer : Poll _)
          → elim answer [
            | pending ↦ returns (record s { rpc = q }, [])
            | ready action ↦ on_action libs eq profile (record s { rpc = q }) action
          ]
            ≡ returns out
          → HasKept s out.0
      by_answer q pending f = subst (HasKept s) (ap (λ o. o.0) (returns-injective f)) (refl, refl)
      by_answer q (ready (notify_handler p handler event)) f =
          subst (HasKept s) (ap (λ o. o.0) (returns-injective f)) (refl, refl)
      by_answer q (ready (generate_event message)) f =
          let (t, e, g) = >>=-eq-returns (on_rpc libs (record s { rpc = q }) message) _ f in
          subst (HasKept s) (ap (λ o. o.0) (returns-injective g))
            (on_rpc-HasKept (record s { rpc = q }) t message e)
