-- ===== src/Node/Waiting.antt =====
-- main.rs: a node whose manager waits for a search that finds nothing.
use cl_p2p_setup.Base.{ℕ, ◌≡◌, sym, ap, subst, ◌∙◌, true, List, [], ◌∷◌}
use cl_p2p_setup.Base.Lists.{All}
use mathlib.Core.Bool.{true≢false}
use cl_p2p_setup.Base.Swarm.{ready}
use cl_p2p_setup.Base.Machine.{returns, Profile, returns-injective, >>=-eq-returns}
use cl_p2p_setup.PeerManager.{PeerManager, discover_peers}
use cl_p2p_setup.PeerManager.Poll
use cl_p2p_setup.PeerManager.Poll.{Tick}
use cl_p2p_setup.PeerManager.Discover.{poll-discover}
use cl_p2p_setup.Discovery
use cl_p2p_setup.Discovery.Find.{failures, poll-failed}
use cl_p2p_setup.Node.{Libraries, Behaviour, on_behaviour_event}
use cl_p2p_setup.Node.Aside.{IsForeign, IsAside, round-Stays}
use cl_p2p_setup.Node.Rounds.{
  Round, polls_discovery, polls_manager, polls_rpc, tells_manager, tells_rpc, receives, Sent, round,
  rounds,
}

module _ (libs : Libraries) (eq : Discrete libs.records.PeerId) (profile : Profile) where
  -- The queries that are answered in the round have failed.
  abbrev pub IsFruitless : Round libs → Type 0
  IsFruitless (polls_discovery answers) =
      (n : ℕ) × (answers.results ≡ failures libs.records eq libs.add_enr n [])
  IsFruitless (receives event) = IsForeign libs eq profile event
  IsFruitless _ = Unit {0}

  -- The manager waits, and discovery was not asked for more peers since it started the query.
  abbrev pub IsWaiting : Behaviour libs → Type 0
  IsWaiting s =
      (s.peer_manager.waiting_for_peer_discovery ≡ true) × (s.discovery.peers_to_discover ≡ 0)

  aside :
      (s : Behaviour libs) (first : Round libs) (out : Behaviour libs × Sent libs)
      → IsAside libs eq profile first
      → round libs eq profile s first ≡ returns out
      → IsWaiting s
      → IsWaiting out.0
  aside s first out f h w =
      let (waits, same) = round-Stays libs eq profile s first out f h w.0 in
      (waits, ap (λ d. d.peers_to_discover) same ∙ w.1)

  round-IsWaiting :
      (s : Behaviour libs) (first : Round libs) (out : Behaviour libs × Sent libs)
      → IsFruitless first
      → round libs eq profile s first ≡ returns out
      → IsWaiting s
      → IsWaiting out.0
  unfolding round on_behaviour_event
  round-IsWaiting s (polls_discovery answers) out (n, e) h w =
      let (d, failed, none_wanted) =
        poll-failed libs.records eq libs.add_enr n answers.stream s.discovery w.1 in
      let polled =
        ap
          (λ r.
            Discovery.poll libs.records eq libs.add_enr
              (record { results = r; stream = answers.stream }) s.discovery)
          e
        ∙ failed in
      subst IsWaiting (ap (λ o. o.0) (returns-injective (rw polled at h))) (w.0, none_wanted)
  round-IsWaiting s (polls_manager ticks) out f h w = aside s (polls_manager ticks) out f h w
  round-IsWaiting s polls_rpc out f h w = aside s polls_rpc out f h w
  round-IsWaiting s (tells_manager event now) out f h w =
      aside s (tells_manager event now) out f h w
  round-IsWaiting s (tells_rpc p c event) out f h w = aside s (tells_rpc p c event) out f h w
  round-IsWaiting s (receives event) out f h w = aside s (receives event) out f h w

  rounds-IsWaiting :
      (swarm : List (Round libs)) (s : Behaviour libs) (out : Behaviour libs × Sent libs)
      → All IsFruitless swarm
      → rounds libs eq profile swarm s ≡ returns out
      → IsWaiting s
      → IsWaiting out.0
  unfolding rounds
  rounds-IsWaiting [] s out f h w = subst IsWaiting (ap (λ o. o.0) (returns-injective h)) w
  rounds-IsWaiting (first ∷ more) s out (f, fs) h w =
      let (t, e, g) = >>=-eq-returns (round libs eq profile s first) _ h in
      let (u, k, l) = >>=-eq-returns (rounds libs eq profile more t.0) _ g in
      subst IsWaiting (ap (λ o. o.0) (returns-injective l))
        (rounds-IsWaiting more t.0 u fs k (round-IsWaiting s first t f e w))

  -- Once the manager waits, and discovery has started its query, a search that finds nothing is the
  -- last: through any rounds in which the queries that are answered have failed, the manager waits on,
  -- and no poll of it ever asks for peers again.
  pub rounds-waits :
      (s s' : Behaviour libs) (swarm : List (Round libs)) (sent : Sent libs)
      → IsWaiting s
      → All IsFruitless swarm
      → rounds libs eq profile swarm s ≡ returns (s', sent)
      → IsWaiting s'
        × ((ticks : List Tick)
              (m : PeerManager libs.records.PeerId libs.records.Multiaddr libs.IdentifyInfo)
              (count : ℕ)
            → ¬ (
                Poll.poll eq profile ticks s'.peer_manager
                ≡ returns (m, ready (discover_peers count))))
  rounds-waits s s' swarm sent w f h =
      let waits = rounds-IsWaiting swarm s (s', sent) f h w in
      (
        waits,
        λ ticks m count asks.
            true≢false
              (sym waits.0 ∙ (poll-discover eq profile ticks s'.peer_manager m count asks).0),
      )
