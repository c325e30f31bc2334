-- ===== src/Node/Aside.antt =====
-- main.rs: rounds in which discovery is not polled, while the manager waits.
use cl_p2p_setup.Base.{◌≡◌, ◌++◌, refl, sym, ap, subst, ◌∙◌, true, List, [], ◌∷◌}
use cl_p2p_setup.Base.Lists.{All}
use mathlib.Core.Bool.{true≢false}
use mathlib.Core.List.{append_assoc}
use cl_p2p_setup.Base.Swarm.{Poll, ready, pending}
use cl_p2p_setup.Base.Machine.{returns, ◌>>=◌, Profile, returns-injective, >>=-eq-returns}
use cl_p2p_setup.PeerManager.{
  PeerManager, PeerManagerEvent, discover_peers, dial_peers, on_swarm_event, add_peer_identity,
}
use cl_p2p_setup.PeerManager.Poll
use cl_p2p_setup.PeerManager.Poll.{Tick}
use cl_p2p_setup.PeerManager.Discover.{poll-discover}
use cl_p2p_setup.PeerManager.Waiting.{poll-waits, on_swarm_event-waits}
use cl_p2p_setup.Node.{
  Libraries, Behaviour, BehaviourEvent, SwarmEvent, behaviour, connection, on_behaviour_event,
}
use cl_p2p_setup.Node.Kept.{polls_rpc-HasKept}
use cl_p2p_setup.Node.Rounds.{
  Round, polls_discovery, polls_manager, polls_rpc, tells_manager, tells_rpc, receives, Sent, round,
  rounds,
}

module _ (libs : Libraries) (eq : Discrete libs.records.PeerId) (profile : Profile) where
  -- An event of a library.
  abbrev pub IsForeign : SwarmEvent libs → Type 0
  IsForeign connection = Unit {0}
  IsForeign (behaviour BehaviourEvent.gossipsub) = Unit {0}
  IsForeign (behaviour BehaviourEvent.identify) = Unit {0}
  IsForeign (behaviour (BehaviourEvent.identify_received p info)) = Unit {0}
  IsForeign _ = ⊥

  -- Discovery is neither polled nor asked, and no peers are given to the manager.
  abbrev pub IsAside : Round libs → Type 0
  IsAside (polls_discovery answers) = ⊥
  IsAside (receives event) = IsForeign event
  IsAside _ = Unit {0}

  -- The manager of the second node waits, and discovery is that of the first.
  abbrev pub Stays : Behaviour libs → Behaviour libs → Type 0
  Stays s t = (t.peer_manager.waiting_for_peer_discovery ≡ true) × (t.discovery ≡ s.discovery)

  receives-Stays :
      (s : Behaviour libs) (event : SwarmEvent libs) (out : Behaviour libs × Sent libs)
      → IsForeign event
      → round libs eq profile s (receives event) ≡ returns out
      → s.peer_manager.waiting_for_peer_discovery ≡ true
      → Stays s out.0
  unfolding round on_behaviour_event add_peer_identity
  receives-Stays s connection out f h w =
      subst (Stays s) (ap (λ o. o.0) (returns-injective h)) (w, refl)
  receives-Stays s (behaviour BehaviourEvent.gossipsub) out f h w =
      subst (Stays s) (ap (λ o. o.0) (returns-injective h)) (w, refl)
  receives-Stays s (behaviour BehaviourEvent.identify) out f h w =
      subst (Stays s) (ap (λ o. o.0) (returns-injective h)) (w, refl)
  receives-Stays s (behaviour (BehaviourEvent.identify_received p info)) out f h w =
      subst (Stays s) (ap (λ o. o.0) (returns-injective h)) (w, refl)
  receives-Stays s (behaviour (BehaviourEvent.discovery peers)) out f h w = absurd f
  receives-Stays s (behaviour (BehaviourEvent.rpc message)) out f h w = absurd f
  receives-Stays s (behaviour (BehaviourEvent.peer_manager event)) out f h w = absurd f

  polls_manager-Stays :
      (s : Behaviour libs) (ticks : List Tick) (out : Behaviour libs × Sent libs)
      → round libs eq profile s (polls_manager ticks) ≡ returns out
      → s.peer_manager.waiting_for_peer_discovery ≡ true
      → Stays s out.0
  unfolding round on_behaviour_event
  polls_manager-Stays s ticks out h w =
      let ((m, answer), e, f) = >>=-eq-returns (Poll.poll eq profile ticks s.peer_manager) _ h in
      by_answer m answer e (poll-waits eq profile ticks s.peer_manager m answer w e) f
    where
      by_answer :
          (m : PeerManager libs.records.PeerId libs.records.Multiaddr libs.IdentifyInfo)
          (answer : Poll (PeerManagerEvent libs.records.PeerId))
          → Poll.poll eq profile ticks s.peer_manager ≡ returns (m, answer)
          → m.waiting_for_peer_discovery ≡ true
          → elim answer [
            | pending ↦ returns (record s { peer_manager = m }, [])
            | ready event ↦
                on_behaviour_event libs eq
                  (record s { peer_manager = m })
                  (BehaviourEvent.peer_manager event)
                >>= λ s'. returns (s', [])
          ]
            ≡ returns out
          → Stays s out.0
      by_answer m pending e v f = subst (Stays s) (ap (λ o. o.0) (returns-injective f)) (v, refl)
      by_answer m (ready (discover_peers count)) e v f =
          absurd (true≢false (sym w ∙ (poll-discover eq profile ticks s.peer_manager m count e).0))
      by_answer m (ready (dial_peers peers)) e v f =
          subst (Stays s) (ap (λ o. o.0) (returns-injective f)) (v, refl)

  pub round-Stays :
      (s : Behaviour libs) (first : Round libs) (out : Behaviour libs × Sent libs)
      → IsAside first
      → round libs eq profile s first ≡ returns out
      → s.peer_manager.waiting_for_peer_discovery ≡ true
      → Stays s out.0
  unfolding round
  round-Stays s (polls_discovery answers) out f h w = absurd f
  round-Stays s (polls_manager ticks) out f h w = polls_manager-Stays s ticks out h w
  round-Stays s polls_rpc out f h w =
      let (same, same_discovery) = polls_rpc-HasKept libs eq profile s out h in
      (ap (λ m. m.waiting_for_peer_discovery) same ∙ w, same_discovery)
  round-Stays s (tells_manager event now) out f h w =
      let (m, e, g) = >>=-eq-returns (on_swarm_event eq profile s.peer_manager event now) _ h in
      subst (Stays s) (ap (λ o. o.0) (returns-injective g))
        (on_swarm_event-waits eq profile s.peer_manager m event now e ∙ w, refl)
  round-Stays s (tells_rpc p c event) out f h w =
      subst (Stays s) (ap (λ o. o.0) (returns-injective h)) (w, refl)
  round-Stays s (receives event) out f h w = receives-Stays s event out f h w

  pub rounds-Stays :
      (swarm : List (Round libs)) (s : Behaviour libs) (out : Behaviour libs × Sent libs)
      → All IsAside swarm
      → rounds libs eq profile swarm s ≡ returns out
      → s.peer_manager.waiting_for_peer_discovery ≡ true
      → Stays s out.0
  unfolding rounds
  rounds-Stays [] s out f h w = subst (Stays s) (ap (λ o. o.0) (returns-injective h)) (w, refl)
  rounds-Stays (first ∷ more) s out (f, fs) h w =
      let (t, e, g) = >>=-eq-returns (round libs eq profile s first) _ h in
      let (u, k, l) = >>=-eq-returns (rounds libs eq profile more t.0) _ g in
      let (waits, same) = round-Stays s first t f e w in
      let (waits', same') = rounds-Stays more t.0 u fs k waits in
      subst (Stays s) (ap (λ o. o.0) (returns-injective l)) (waits', same' ∙ same)

  -- Rounds one after the other.
  pub rounds-append :
      (swarm more : List (Round libs)) (s t u : Behaviour libs) (sent sent' : Sent libs)
      → rounds libs eq profile swarm s ≡ returns (t, sent)
      → rounds libs eq profile more t ≡ returns (u, sent')
      → rounds libs eq profile (swarm ++ more) s ≡ returns (u, sent ++ sent')
  unfolding rounds
  rounds-append [] more s t u sent sent' h k =
      let same = returns-injective h in
      ap (λ s. rounds libs eq profile more s) (ap (λ o. o.0) same)
      ∙ k
      ∙ ap (λ l. returns (u, l ++ sent')) (ap (λ o. o.1) same)
  rounds-append (first ∷ swarm) more s t u sent sent' h k =
      let ((m, a), e, f) = >>=-eq-returns (round libs eq profile s first) _ h in
      let ((v, b), g, l) = >>=-eq-returns (rounds libs eq profile swarm m) _ f in
      let same = returns-injective l in
      let ih =
        rounds-append swarm more m v u b sent' g
          (ap (λ t. rounds libs eq profile more t) (ap (λ o. o.0) same) ∙ k) in
      rw (e, ih)
        (ap (λ l. returns (u, l))
          (sym (append_assoc a b sent') ∙ ap (λ l. l ++ sent') (ap (λ o. o.1) same)))

  -- A round that tells nothing.
  pub rounds_of_round :
      (first : Round libs) (more : List (Round libs)) (s t u : Behaviour libs) (sent : Sent libs)
      → round libs eq profile s first ≡ returns (t, [])
      → rounds libs eq profile more t ≡ returns (u, sent)
      → rounds libs eq profile (first ∷ more) s ≡ returns (u, sent)
  unfolding rounds
  rounds_of_round first more s t u sent h k = rw (h, k) refl

  pub rounds-none : (s : Behaviour libs) → rounds libs eq profile [] s ≡ returns (s, [])
  unfolding rounds
  rounds-none s = refl
