-- ===== src/Node/Managed.antt =====
-- main.rs and peer_manager.rs: what rounds of the node do to the peer manager.
use cl_p2p_setup.Base.{Option, String, sym, ℕ, ◌<◌, ◌≡◌, ap, subst, List, [], ◌∷◌}
use cl_p2p_setup.Base.Swarm.{Poll, ready, pending}
use cl_p2p_setup.Base.Machine.{returns, ◌>>=◌, wrapping, u32_mod, returns-injective, >>=-eq-returns}
use cl_p2p_setup.PeerManager.{PeerManager, discover_peers, dial_peers, on_swarm_event}
use cl_p2p_setup.PeerManager.Poll
use cl_p2p_setup.PeerManager.Poll.{Tick, load_peer_data}
use cl_p2p_setup.PeerManager
use cl_p2p_setup.PeerManager.Stored.{SerdeMillis, StoredPeer}
use cl_p2p_setup.PeerManager.Invariant.{IsConsistent}
use cl_p2p_setup.PeerManager.Reach.{
  swarms, polls, discovers, identifies, HasPolled, Step-IsConsistent, poll-HasPolled,
  load_peer_data-IsConsistent,
}
use cl_p2p_setup.Discovery
use cl_p2p_setup.Node.{
  Libraries, Behaviour, BehaviourEvent, behaviour, connection, on_behaviour_event,
}
use cl_p2p_setup.Node.Kept.{on_rpc-HasKept, polls_rpc-HasKept}
use cl_p2p_setup.Node.Rounds.{
  Round, polls_discovery, polls_manager, polls_rpc, tells_manager, tells_rpc, receives, Sent, round,
  rounds,
}

module _ (libs : Libraries) (eq : Discrete libs.records.PeerId) where
  -- The tables of the manager are consistent.
  abbrev IsManaged : Behaviour libs → Type 0
  IsManaged s = IsConsistent eq s.peer_manager

  on_behaviour_event-IsManaged :
      (s s' : Behaviour libs) (event : BehaviourEvent libs)
      → on_behaviour_event libs eq s event ≡ returns s'
      → IsManaged s
      → IsManaged s'
  unfolding on_behaviour_event
  on_behaviour_event-IsManaged s s' BehaviourEvent.gossipsub h r =
      subst (IsManaged) (returns-injective h) r
  on_behaviour_event-IsManaged s s' BehaviourEvent.identify h r =
      subst (IsManaged) (returns-injective h) r
  on_behaviour_event-IsManaged s s' (BehaviourEvent.discovery peers) h r =
      subst (IsManaged) (returns-injective h) (Step-IsConsistent eq (discovers peers) r)
  on_behaviour_event-IsManaged s s' (BehaviourEvent.rpc message) h r =
      subst (IsConsistent eq) (sym (on_rpc-HasKept libs s s' message h).0) r
  on_behaviour_event-IsManaged s s' (BehaviourEvent.identify_received p info) h r =
      subst (IsManaged) (returns-injective h) (Step-IsConsistent eq (identifies p info) r)
  on_behaviour_event-IsManaged s s' (BehaviourEvent.peer_manager (discover_peers n)) h r =
      subst (IsManaged) (returns-injective h) r
  on_behaviour_event-IsManaged s s' (BehaviourEvent.peer_manager (dial_peers ps)) h r =
      subst (IsManaged) (returns-injective h) r

  -- The event is the last thing of a round.
  then_nothing-IsManaged :
      (s : Behaviour libs) (event : BehaviourEvent libs) (out : Behaviour libs × Sent libs)
      → (on_behaviour_event libs eq s event >>= λ s'. returns (s', [])) ≡ returns out
      → IsManaged s
      → IsManaged out.0
  then_nothing-IsManaged s event out h r =
      let (t, e, f) = >>=-eq-returns (on_behaviour_event libs eq s event) _ h in
      subst (IsManaged) (ap (λ o. o.0) (returns-injective f))
        (on_behaviour_event-IsManaged s t event e r)

  round-IsManaged :
      (s : Behaviour libs) (first : Round libs) (out : Behaviour libs × Sent libs)
      → round libs eq wrapping s first ≡ returns out
      → IsManaged s
      → IsManaged out.0
  unfolding round
  round-IsManaged s (polls_discovery answers) out h r =
      let ((d, answer), e, f) =
        >>=-eq-returns (Discovery.poll libs.records eq libs.add_enr answers s.discovery) _ h in
      by_answer d answer f
    where
      by_answer :
          (d : Discovery.Discovery libs.records.Enr) (answer : Poll _)
          → elim answer [
            | pending ↦ returns (record s { discovery = d }, [])
            | ready peers ↦
                on_behaviour_event libs eq
                  (record s { discovery = d })
                  (BehaviourEvent.discovery peers)
                >>= λ s'. returns (s', [])
          ]
            ≡ returns out
          → IsManaged out.0
      by_answer d pending f = subst (IsManaged) (ap (λ o. o.0) (returns-injective f)) r
      by_answer d (ready peers) f = then_nothing-IsManaged _ _ out f r
  round-IsManaged s (polls_manager ticks) out h r =
      let ((m, answer), e, f) = >>=-eq-returns (Poll.poll eq wrapping ticks s.peer_manager) _ h in
      by_answer m answer (Step-IsConsistent eq (polls ticks e) r) f
    where
      by_answer :
          (m : PeerManager _ _ libs.IdentifyInfo) (answer : Poll _)
          → IsConsistent eq m
          → elim answer [
            | pending ↦ returns (record s { peer_manager = m }, [])
            | ready event ↦
                on_behaviour_event libs eq
                  (record s { peer_manager = m })
                  (BehaviourEvent.peer_manager event)
                >>= λ s'. returns (s', [])
          ]
            ≡ returns out
          → IsManaged out.0
      by_answer m pending r' f = subst (IsManaged) (ap (λ o. o.0) (returns-injective f)) r'
      by_answer m (ready event) r' f = then_nothing-IsManaged _ _ out f r'
  round-IsManaged s polls_rpc out h r =
      subst (IsConsistent eq) (sym (polls_rpc-HasKept libs eq wrapping s out h).0) r
  round-IsManaged s (tells_manager event now) out h r =
      let (m, e, f) = >>=-eq-returns (on_swarm_event eq wrapping s.peer_manager event now) _ h in
      subst (IsManaged) (ap (λ o. o.0) (returns-injective f))
        (Step-IsConsistent eq (swarms event now e) r)
  round-IsManaged s (tells_rpc p c event) out h r =
      subst (IsManaged) (ap (λ o. o.0) (returns-injective h)) r
  round-IsManaged s (receives (behaviour event)) out h r = then_nothing-IsManaged s event out h r
  round-IsManaged s (receives connection) out h r =
      subst (IsManaged) (ap (λ o. o.0) (returns-injective h)) r

  rounds-IsManaged :
      (swarm : List (Round libs)) (s : Behaviour libs) (out : Behaviour libs × Sent libs)
      → rounds libs eq wrapping swarm s ≡ returns out
      → IsManaged s
      → IsManaged out.0
  unfolding rounds
  rounds-IsManaged [] s out h r = subst (IsManaged) (ap (λ o. o.0) (returns-injective h)) r
  rounds-IsManaged (first ∷ more) s out h r =
      let (t, e, f) = >>=-eq-returns (round libs eq wrapping s first) _ h in
      let (u, g, k) = >>=-eq-returns (rounds libs eq wrapping more t.0) _ f in
      subst (IsManaged) (ap (λ o. o.0) (returns-injective k))
        (rounds-IsManaged more t.0 u g (round-IsManaged s first t e r))

  -- In a build without overflow checks: a node that starts with what `load_peer_data` makes of a new
  -- manager, whatever the file holds, keeps the tables of its manager consistent, however the swarm polls
  -- and tells the behaviours and whatever events it has, as long as no round panics; and no poll of the
  -- manager that may follow panics.
  pub rounds-IsConsistent :
      (target : ℕ) (s s' : Behaviour libs) (swarm : List (Round libs)) (sent : Sent libs)
      (millis : SerdeMillis)
      (deserialize : String
        → Option (List (libs.records.PeerId × StoredPeer libs.records.Multiaddr)))
      (file : Option (Option String))
      → target < u32_mod
      → load_peer_data millis deserialize file (PeerManager.new target) ≡ returns s.peer_manager
      → rounds libs eq wrapping swarm s ≡ returns (s', sent)
      → IsConsistent eq s'.peer_manager
        × ((ticks : List Tick) → HasPolled eq (Poll.poll eq wrapping ticks s'.peer_manager))
  rounds-IsConsistent target s s' swarm sent millis deserialize file range loads h =
      let v =
        load_peer_data-IsConsistent eq target s.peer_manager millis deserialize file range loads in
      let managed = rounds-IsManaged swarm s (s', sent) h v in
      (managed, λ ticks. poll-HasPolled eq ticks s'.peer_manager managed)
