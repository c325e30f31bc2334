-- ===== src/PeerManager/Start.antt =====
-- peer_manager.rs: a dial that starts or times out keeps the tables consistent.
use cl_p2p_setup.Base.{
  ℕ, suc, ◌≡◌, refl, ap, ◌∙◌, inl, inr, Bool, true, false, Option, none, some, List, [], ◌∷◌, ◌++◌,
  last, arith, Option-cases, last-snoc, last-set_last,
}
use cl_p2p_setup.Base.Lists.{is_some, All, All-map}
use cl_p2p_setup.Base.Tables.{
  lookup, insert, contains, add, discard, lookup-insert, contains-add, contains-discard,
  contains_of_discard, contains_of_add,
}
use cl_p2p_setup.Base.Machine.{Outcome, returns}
use cl_p2p_setup.PeerManager.{ConnectionData, PeerData, PeerManager, Instant}
use cl_p2p_setup.PeerManager.Dialling.{
  is_connecting, new_connection_data, peer_connecting, start_dials, timeout_dialling_peers,
}
use cl_p2p_setup.PeerManager.Timeouts.{marked, timed_out_connection, timeout_dialling_peers_lem}
use cl_p2p_setup.PeerManager.Invariant.{has_attempt, IsConsistent, write-IsConsistent}

abbrev pub is_under_way : Option ConnectionData → Bool
is_under_way none = false
is_under_way (some c) = is_connecting c.connection_status

abbrev pub dials : {Multiaddr : Type 0} → Option (PeerData Multiaddr) → Bool
dials none = false
dials (some d) = is_under_way (last d.connection_history)

has_attempt-marked :
    {Multiaddr : Type 0} (now : Instant) (o : Option (PeerData Multiaddr))
    → has_attempt o ≡ true
    → has_attempt (marked now o) ≡ true
has_attempt-marked now none h = h
has_attempt-marked now (some d) h = elim (Option-cases (last d.connection_history)) [
  | inl e ↦ ground arith
  | inr (c, e) ↦ ground (arith, last-set_last d.connection_history c (timed_out_connection now c) e)
]

is_some-marked :
    {Multiaddr : Type 0} (now : Instant) (o : Option (PeerData Multiaddr))
    → is_some (marked now o) ≡ is_some o
is_some-marked now none = refl
is_some-marked now (some d) = refl

module _ {PeerId Multiaddr IdentifyInfo : Type 0} (eq : Discrete PeerId) where
  pub timeout_dialling_peers-IsConsistent :
      (s : PeerManager PeerId Multiaddr IdentifyInfo) (now : Instant)
      → IsConsistent eq s
      → IsConsistent eq (timeout_dialling_peers eq s now)
  timeout_dialling_peers-IsConsistent s now v = record {
    in_range = unfold timeout_dialling_peers in v.in_range;
    known = λ p h. ground (
      arith,
      timeout_dialling_peers_lem eq s now p,
      v.known p (unfold timeout_dialling_peers in h),
      is_some-marked now (lookup eq p s.peer_data),
    );
    dialled = λ p h. ground (
      arith,
      timeout_dialling_peers_lem eq s now p,
      v.dialled p,
      has_attempt-marked now (lookup eq p s.peer_data),
    );
    linked = λ p h. ground (
      arith,
      timeout_dialling_peers_lem eq s now p,
      v.linked p (unfold timeout_dialling_peers in h),
      has_attempt-marked now (lookup eq p s.peer_data),
    );
  }

  -- The peer is being dialled: it is in the set of these, its last attempt is under way, and it is
  -- no longer a new peer.
  pub record IsDialled (s : PeerManager PeerId Multiaddr IdentifyInfo) (p : PeerId) : Type 0 where
    pub in_set : contains eq p s.dialling_peers ≡ true
    pub under_way : dials (lookup eq p s.peer_data) ≡ true
    pub not_new : contains eq p s.new_peers ≡ false

  -- What a round of the loop of `get_peers_to_dial` makes of a known peer.
  pub record Started (s : PeerManager PeerId Multiaddr IdentifyInfo) (p : PeerId) (now : Instant)
      : Type 0 where
    pub state : PeerManager PeerId Multiaddr IdentifyInfo
    pub result :
        peer_connecting eq (record s { dialling_peers = add eq p s.dialling_peers }) p now
        ≡ returns state
    pub consistent : IsConsistent eq state
    pub same_target : state.target_peer_number ≡ s.target_peer_number
    pub same_connected : state.connected_peers ≡ s.connected_peers
    pub same_waiting : state.waiting_for_peer_discovery ≡ s.waiting_for_peer_discovery
    pub is_dialled : IsDialled state p
    pub others : (j : PeerId) → IsDialled s j → IsDialled state j
    pub known :
        (j : PeerId)
        → is_some (lookup eq j s.peer_data) ≡ true
        → is_some (lookup eq j state.peer_data) ≡ true

  pub start :
      (s : PeerManager PeerId Multiaddr IdentifyInfo) (p : PeerId) (now : Instant)
      → IsConsistent eq s
      → is_some (lookup eq p s.peer_data) ≡ true
      → Started s p now
  unfolding peer_connecting
  start s p now v h = elim (Option-cases (lookup eq p s.peer_data)) [
    | inl e ↦ absurd (cc (ap is_some e))
    | inr (d, e) ↦
        let history = last-snoc d.connection_history (new_connection_data now) in
        let d' : PeerData Multiaddr = record d {
          connection_history = d.connection_history ++ new_connection_data now ∷ [];
        } in
        let state : PeerManager PeerId Multiaddr IdentifyInfo = record s {
          dialling_peers = add eq p s.dialling_peers;
          peer_data = insert eq p d' s.peer_data;
          new_peers = discard eq p s.new_peers;
        } in
        record {
          state = state;
          result = rw (e, peer_connecting);
          consistent =
              write-IsConsistent eq s state p d' refl refl (ap is_some history)
                (λ j k. contains_of_discard eq p j s.new_peers k)
                (λ j k. contains_of_add eq p j s.dialling_peers k) (λ j k. inl k) v;
          same_target = refl;
          same_connected = refl;
          same_waiting = refl;
          is_dialled = record {
            in_set = ground (arith, contains-add eq p p s.dialling_peers);
            under_way = ground (arith, history, lookup-insert eq p p d' s.peer_data);
            not_new = ground (arith, contains-discard eq p p s.new_peers);
          };
          others = λ j i. record {
            in_set = ground (arith, i.in_set, contains-add eq p j s.dialling_peers);
            under_way = ground (arith, i.under_way, history, lookup-insert eq p j d' s.peer_data);
            not_new = ground (arith, i.not_new, contains-discard eq p j s.new_peers);
          };
          known = λ j k. ground (arith, k, lookup-insert eq p j d' s.peer_data);
        }
  ]

  -- What the loop makes of known peers.
  pub record AllStarted (s : PeerManager PeerId Multiaddr IdentifyInfo) (peers : List PeerId)
      (r : Outcome (PeerManager PeerId Multiaddr IdentifyInfo)) : Type 0 where
    pub state : PeerManager PeerId Multiaddr IdentifyInfo
    pub result : r ≡ returns state
    pub consistent : IsConsistent eq state
    pub same_target : state.target_peer_number ≡ s.target_peer_number
    pub same_connected : state.connected_peers ≡ s.connected_peers
    pub same_waiting : state.waiting_for_peer_discovery ≡ s.waiting_for_peer_discovery
    pub are_dialled : All (IsDialled state) peers
    pub others : (j : PeerId) → IsDialled s j → IsDialled state j

  pub start_dials-AllStarted :
      (clock : ℕ → Instant) (n : ℕ) (peers : List PeerId)
      (s : PeerManager PeerId Multiaddr IdentifyInfo)
      → IsConsistent eq s
      → All (λ p. is_some (lookup eq p s.peer_data) ≡ true) peers
      → AllStarted s peers (start_dials eq clock n peers s)
  unfolding start_dials
  start_dials-AllStarted clock n [] s v known = record {
    state = s;
    result = refl;
    consistent = v;
    same_target = refl;
    same_connected = refl;
    same_waiting = refl;
    are_dialled = tt;
    others = λ j i. i;
  }
  start_dials-AllStarted clock n (p ∷ peers) s v known =
      let first = start s p (clock n) v known.0 in
      let rest =
        start_dials-AllStarted clock (suc n) peers first.state first.consistent
          (All-map _ _ peers first.known known.1) in
      record {
        state = rest.state;
        result = rw first.result rest.result;
        consistent = rest.consistent;
        same_target = rest.same_target ∙ first.same_target;
        same_connected = rest.same_connected ∙ first.same_connected;
        same_waiting = rest.same_waiting ∙ first.same_waiting;
        are_dialled = (rest.others p first.is_dialled, rest.are_dialled);
        others = λ j i. rest.others j (first.others j i);
      }
