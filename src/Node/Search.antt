-- ===== src/Node/Search.antt =====
-- main.rs, peer_manager.rs and discovery.rs: the manager's search for peers, through the node.
mod Tests
use cl_p2p_setup.Base.{
  ◌++◌, sym, ◌∙◌, ◌<◌, ℕ, ◌+◌, ◌≡◌, refl, ap, subst, true, false, Option, none, some, List, [], ◌∷◌,
  inl, inr, arith, Option-cases, is_some,
}
use cl_p2p_setup.Base.Lists.{All, All-map}
use cl_p2p_setup.Base.Swarm.{Result, Poll, ready, ok}
use cl_p2p_setup.Base.Tables.{lookup, insert, add, lookup-insert, lookup-insert_self}
use cl_p2p_setup.Base.Machine.{returns, Profile}
use cl_p2p_setup.PeerManager.{PeerManager, discover_peers, new_peer_data, add_each, add_peers}
use cl_p2p_setup.PeerManager.Poll
use cl_p2p_setup.PeerManager.Poll.{Tick}
use cl_p2p_setup.PeerManager.Discover.{poll-discover}
use cl_p2p_setup.Discovery.{Answers, Discovery, set_peers_to_discover}
use cl_p2p_setup.Discovery.Find.{HasPeerId, failures, poll-found, poll-starts}
use cl_p2p_setup.Node.{Libraries, Behaviour, on_behaviour_event}
use mathlib.Core.List.{append-nil}
use cl_p2p_setup.Node.Aside.{IsAside, rounds-Stays, rounds-append, rounds_of_round, rounds-none}
use cl_p2p_setup.Node.Rounds.{Sent, Round, polls_discovery, polls_manager, round, rounds}

module _ {PeerId Multiaddr IdentifyInfo : Type 0} (eq : Discrete PeerId) where
  -- What one round of the loop of `add_peers` makes of the manager.
  abbrev added :
      PeerId
      → Option Multiaddr
      → PeerManager PeerId Multiaddr IdentifyInfo
      → PeerManager PeerId Multiaddr IdentifyInfo
  added q address s = elim (lookup eq q s.peer_data) [
    | some d ↦ s
    | none ↦ record s {
      peer_data = insert eq q (new_peer_data address) s.peer_data;
      new_peers = add eq q s.new_peers;
    }
  ]

  added-kept :
      (q : PeerId) (address : Option Multiaddr) (s : PeerManager PeerId Multiaddr IdentifyInfo)
      (p : PeerId)
      → is_some (lookup eq p s.peer_data) ≡ true
      → is_some (lookup eq p (added q address s).peer_data) ≡ true
  added-kept q address s p h = elim (Option-cases (lookup eq q s.peer_data)) [
    | inl e ↦
        rw (added, e) (ground (arith, lookup-insert eq q p (new_peer_data address) s.peer_data))
    | inr (d, e) ↦ rw (added, e) h
  ]

  added-knows :
      (q : PeerId) (address : Option Multiaddr) (s : PeerManager PeerId Multiaddr IdentifyInfo)
      → is_some (lookup eq q (added q address s).peer_data) ≡ true
  added-knows q address s = elim (Option-cases (lookup eq q s.peer_data)) [
    | inl e ↦
        rw (added, e) (ap is_some (lookup-insert_self eq q (new_peer_data address) s.peer_data))
    | inr (d, e) ↦ rw (added, e) (ap is_some e)
  ]

  add_each-kept :
      (peers : List (PeerId × Option Multiaddr)) (s : PeerManager PeerId Multiaddr IdentifyInfo)
      (p : PeerId)
      → is_some (lookup eq p s.peer_data) ≡ true
      → is_some (lookup eq p (add_each eq peers s).peer_data) ≡ true
  unfolding add_each
  add_each-kept [] s p h = h
  add_each-kept ((q, address) ∷ peers) s p h =
      add_each-kept peers (added q address s) p (added-kept q address s p h)

  -- A peer that is discovered is in the data.
  add_each-knows :
      (peers : List (PeerId × Option Multiaddr)) (s : PeerManager PeerId Multiaddr IdentifyInfo)
      (p : PeerId)
      → is_some (lookup eq p peers) ≡ true
      → is_some (lookup eq p (add_each eq peers s).peer_data) ≡ true
  unfolding add_each lookup
  add_each-knows [] s p h = cc
  add_each-knows ((q, address) ∷ peers) s p h = elim (eq q p) [
    | yes e ↦ add_each-kept peers (added q address s) p (
        subst (λ p. is_some (lookup eq p (added q address s).peer_data) ≡ true) e
          (added-knows q address s))
    | no n ↦ add_each-knows peers (added q address s) p (ground arith)
  ]

module _ (libs : Libraries) (eq : Discrete libs.records.PeerId) (profile : Profile) where
  open libs.records use {Enr, as_peer_id}

  -- The manager, which is now `m`, has asked for `count` peers.
  abbrev pub asked :
      Behaviour libs
      → PeerManager libs.records.PeerId libs.records.Multiaddr libs.IdentifyInfo
      → ℕ
      → Behaviour libs
  asked s m count = record s {
    peer_manager = m;
    discovery = record s.discovery { peers_to_discover = count };
  }

  -- A query was started.
  abbrev pub searching : Behaviour libs → Behaviour libs
  searching s = record s {
    discovery = record s.discovery {
      peers_future = s.discovery.peers_future + 1;
      peers_to_discover = 0;
      started = true;
    };
  }

  -- When a poll of the manager asks for peers, and the node's own record has a fork id, the next poll of
  -- discovery starts a query; and when the poll of it behind that has the answer, that of the first query
  -- that did not fail, in records whose keys decode to peer ids, each record found is a peer that the
  -- manager knows, the manager is no longer waiting, and no query is left. Between these three rounds
  -- discovery must not be polled, the loop must have no events but those of gossipsub, identify and the
  -- connections, and no round may panic; handlers are told what those rounds tell them.
  pub rounds-search :
      (s t u : Behaviour libs) (ticks : List Tick) (count : ℕ)
      (m : PeerManager libs.records.PeerId libs.records.Multiaddr libs.IdentifyInfo)
      (digest : libs.records.Digest) (answers : Answers Enr) (n : ℕ) (found : List Enr)
      (rest : List (Result (List Enr) (Unit {0}))) (stream : Poll (Result (Unit {0}) (Unit {0})))
      (before after : List (Round libs)) (sent sent' : Sent libs)
      → All (HasPeerId libs.records eq libs.add_enr) found
      → Poll.poll eq profile ticks s.peer_manager ≡ returns (m, ready (discover_peers count))
      → libs.records.fork_digest s.discovery.enr ≡ some digest
      → All (IsAside libs eq profile) before
      → rounds libs eq profile before (asked s m count) ≡ returns (t, sent)
      → All (IsAside libs eq profile) after
      → rounds libs eq profile after (searching t) ≡ returns (u, sent')
      → (s' : Behaviour libs) × (rounds libs eq profile
            (polls_manager ticks
              ∷ (before
                  ++ polls_discovery answers
                    ∷ (after
                        ++ polls_discovery (record {
                          results = failures libs.records eq libs.add_enr n (ok found ∷ rest);
                          stream = stream;
                        })
                          ∷ [])))
            s
          ≡ returns (s', sent ++ sent'))
        × (s'.peer_manager.waiting_for_peer_discovery ≡ false)
        × (s'.discovery.peers_future ≡ 0)
        × All
            (λ enr.
              (p : libs.records.PeerId) × (as_peer_id enr ≡ returns p)
              × (is_some (lookup eq p s'.peer_manager.peer_data) ≡ true))
            found
  unfolding round on_behaviour_event set_peers_to_discover add_peers
  rounds-search s t u ticks count m digest answers n found rest stream before after sent sent' ids
        asks own aside h aside' k =
      let (waiting, same, some_count, manager) =
        poll-discover eq profile ticks s.peer_manager m count asks in
      let (t_waits, t_same) =
        rounds-Stays libs eq profile before (asked s m count) (t, sent) aside h
          (ap (λ m. m.waiting_for_peer_discovery) manager) in
      let (u_waits, u_same) =
        rounds-Stays libs eq profile after (searching t) (u, sent') aside' k t_waits in
      let starts =
        poll-starts libs.records eq libs.add_enr digest answers t.discovery
          (ap (λ d. libs.records.fork_digest d.enr) t_same ∙ own)
          (subst (λ k. 0 < k) (sym (ap (λ d. d.peers_to_discover) t_same)) some_count) in
      let (d, peers, answered, none_left, known, whose) =
        poll-found libs.records eq libs.add_enr n found rest stream u.discovery ids
          (ap (λ d. d.peers_to_discover) u_same) in
      let last : Round libs = polls_discovery (record {
        results = failures libs.records eq libs.add_enr n (ok found ∷ rest);
        stream = stream;
      }) in
      let s' : Behaviour libs = record u {
        peer_manager = add_peers eq u.peer_manager peers;
        discovery = d;
      } in
      (
        s',
        rounds_of_round libs eq profile (polls_manager ticks) _ s (asked s m count) s'
            (sent ++ sent') (rw asks refl)
            (rounds-append libs eq profile before _ (asked s m count) t s' sent sent' h (
              rounds_of_round libs eq profile (polls_discovery answers) _ t (searching t) s' sent'
                (rw starts refl)
                (subst
                  (λ l. rounds libs eq profile (after ++ last ∷ []) (searching t) ≡ returns (s', l))
                  (append-nil sent')
                  (rounds-append libs eq profile after _ (searching t) u s' sent' [] k (
                    rounds_of_round libs eq profile last [] u s' s' [] (rw answered refl)
                      (rounds-none libs eq profile s')))))),
        refl,
        none_left,
        All-map _ _ found (λ enr (p, id, h). (p, id, add_each-knows eq peers u.peer_manager p h))
            known,
      )
