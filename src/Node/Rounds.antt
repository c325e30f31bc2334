-- ===== src/Node/Rounds.antt =====
-- main.rs: the node in its swarm, which polls the behaviours and gives their events to the main loop.
use cl_p2p_setup.Base.{List, [], ◌∷◌, ◌++◌}
use cl_p2p_setup.Base.Swarm.{ready, pending}
use cl_p2p_setup.Base.Machine.{Outcome, returns, ◌>>=◌, Profile}
use cl_p2p_setup.Rpc.Handler.{HandlerEvent}
use cl_p2p_setup.Rpc.Behaviour as RpcBehaviour
use cl_p2p_setup.Rpc.Behaviour.{Rpc, BehaviourAction, notify_handler, generate_event, inject_event}
use cl_p2p_setup.PeerManager.{PeerManager, PeerManagerEvent, FromSwarm, Instant}
use cl_p2p_setup.PeerManager
use cl_p2p_setup.PeerManager.Poll
use cl_p2p_setup.PeerManager.Poll.{Tick}
use cl_p2p_setup.Discovery
use cl_p2p_setup.Discovery.{Records, Discovery, Answers}
use cl_p2p_setup.Node.{
  Libraries, Behaviour, BehaviourEvent, SwarmEvent, on_behaviour_event, on_swarm_event,
}

module _ (libs : Libraries) where
  open libs.records use {PeerId, Multiaddr, Enr}
  open libs use {IdentifyInfo, ConnectionId, ReqId}

  -- What the swarm does in a round: it polls a behaviour of this repository, and the event it gets, if
  -- any, goes to the loop; it tells a behaviour of a connection or of a handler; or it has an event of a
  -- library for the loop.
  pub data Round : Type 0 where
    polls_discovery : Answers Enr → Round
    polls_manager : List Tick → Round
    polls_rpc : Round
    tells_manager : FromSwarm PeerId → Instant → Round
    tells_rpc : PeerId → ConnectionId → HandlerEvent ReqId → Round
    receives : SwarmEvent libs → Round

  -- What handlers are told.
  abbrev pub Sent : Type 0
  Sent = List (BehaviourAction PeerId ConnectionId ReqId)

  module _ (eq : Discrete PeerId) (profile : Profile) where
    abbrev pub on_action :
        Behaviour libs → BehaviourAction PeerId ConnectionId ReqId → Outcome (Behaviour libs × Sent)
    on_action s (notify_handler peer_id handler event) =
        returns (s, notify_handler peer_id handler event ∷ [])
    on_action s (generate_event message) =
        on_behaviour_event libs eq s (BehaviourEvent.rpc message) >>= λ s'. returns (s', [])

    unfoldable pub round : Behaviour libs → Round → Outcome (Behaviour libs × Sent)
    round s (polls_discovery answers) =
        Discovery.poll libs.records eq libs.add_enr answers s.discovery >>= λ (d, answer).
        elim answer [
          | pending ↦ returns (record s { discovery = d }, [])
          | ready peers ↦
              on_behaviour_event libs eq (record s { discovery = d })
                (BehaviourEvent.discovery peers)
              >>= λ s'. returns (s', [])
        ]
    round s (polls_manager ticks) =
        PeerManager.Poll.poll eq profile ticks s.peer_manager >>= λ (m, answer). elim answer [
          | pending ↦ returns (record s { peer_manager = m }, [])
          | ready event ↦
              on_behaviour_event libs eq (record s { peer_manager = m })
                (BehaviourEvent.peer_manager event)
              >>= λ s'. returns (s', [])
        ]
    round s polls_rpc =
        let (r, answer) = RpcBehaviour.poll s.rpc in
        elim answer [
          | pending ↦ returns (record s { rpc = r }, [])
          | ready action ↦ on_action (record s { rpc = r }) action
        ]
    round s (tells_manager event now) =
        PeerManager.on_swarm_event eq profile s.peer_manager event now >>= λ m.
        returns (record s { peer_manager = m }, [])
    round s (tells_rpc peer_id conn_id event) =
        returns (record s { rpc = inject_event s.rpc peer_id conn_id event }, [])
    round s (receives event) = on_swarm_event libs eq s event >>= λ s'. returns (s', [])

    unfoldable pub rounds : List Round → Behaviour libs → Outcome (Behaviour libs × Sent)
    rounds [] s = returns (s, [])
    rounds (first ∷ more) s = do
      (s', sent) ← round s first
      (s'', sent') ← rounds more s'
      returns (s'', sent ++ sent')
