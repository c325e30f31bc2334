-- ===== src/PeerManager/Invariant.antt =====
-- peer_manager.rs: the sets of peers agree with the peer data, through every operation.
use cl_p2p_setup.Base.{
  ℕ, ◌<◌, ◌≡◌, refl, ap, subst, ◌⊎◌, Bool, true, false, Option, none, some, List, last, arith, inl,
  last-set_last,
}
use cl_p2p_setup.Base.Lists.{is_some}
use cl_p2p_setup.Base.Tables.{
  lookup, insert, contains, lookup-insert, contains_of_add, contains_of_discard,
}
use cl_p2p_setup.Base.Machine.{returns, >>=-eq-returns, returns-injective, Profile, u32_mod}
use cl_p2p_setup.PeerManager.{
  connected, disconnected, failed, ConnectionData, PeerData, PeerManager, Instant, FromSwarm,
  connection_established, connection_closed, dial_failure, ignored, with_last, last_connection,
  update_average_connection_duration, on_connection_established, on_connection_closed,
  on_dial_failure, on_swarm_event, new,
}

module _ {Multiaddr : Type 0} where
  -- The peer is known, and a connection to it was attempted.
  abbrev pub has_attempt : Option (PeerData Multiaddr) → Bool
  has_attempt none = false
  has_attempt (some d) = is_some (last d.connection_history)

  pub update-history :
      (profile : Profile) (d : PeerData Multiaddr) {d' : PeerData Multiaddr}
      → update_average_connection_duration profile d ≡ returns d'
      → d'.connection_history ≡ d.connection_history
  unfolding update_average_connection_duration
  update-history profile d h = ground arith

module _ {PeerId Multiaddr : Type 0} (eq : Discrete PeerId) where
  pub last_connection-eq :
      (p : PeerId) (m : List (PeerId × PeerData Multiaddr)) {d : PeerData Multiaddr}
      {c : ConnectionData}
      → last_connection eq p m ≡ returns (d, c)
      → (lookup eq p m ≡ some d) × (last d.connection_history ≡ some c)
  unfolding last_connection
  last_connection-eq p m h = ground arith

module _ {PeerId Multiaddr IdentifyInfo : Type 0} (eq : Discrete PeerId) where
  -- The target is a `u32`; new peers are known; and a connection was attempted to each peer that is
  -- dialled or connected.
  pub record IsConsistent (s : PeerManager PeerId Multiaddr IdentifyInfo) : Type 0 where
    pub in_range : s.target_peer_number < u32_mod
    pub known :
        (p : PeerId) → contains eq p s.new_peers ≡ true → is_some (lookup eq p s.peer_data) ≡ true
    pub dialled :
        (p : PeerId)
        → contains eq p s.dialling_peers ≡ true
        → has_attempt (lookup eq p s.peer_data) ≡ true
    pub linked :
        (p : PeerId)
        → contains eq p s.connected_peers ≡ true
        → has_attempt (lookup eq p s.peer_data) ≡ true

  pub new-IsConsistent : (target : ℕ) → target < u32_mod → IsConsistent (new target)
  unfolding new contains
  new-IsConsistent target h = record {
    in_range = h;
    known = λ p h. cc;
    dialled = λ p h. cc;
    linked = λ p h. cc;
  }

  -- A write of data with an attempt, after which at most its peer is new in the other two sets.
  pub write-IsConsistent :
      (s s' : PeerManager PeerId Multiaddr IdentifyInfo) (p : PeerId) (d : PeerData Multiaddr)
      → s'.target_peer_number ≡ s.target_peer_number
      → s'.peer_data ≡ insert eq p d s.peer_data
      → is_some (last d.connection_history) ≡ true
      → ((j : PeerId) → contains eq j s'.new_peers ≡ true → contains eq j s.new_peers ≡ true)
      → ((j : PeerId)
          → contains eq j s'.dialling_peers ≡ true
          → (contains eq j s.dialling_peers ≡ true) ⊎ (p ≡ j))
      → ((j : PeerId)
          → contains eq j s'.connected_peers ≡ true
          → (contains eq j s.connected_peers ≡ true) ⊎ (p ≡ j))
      → IsConsistent s
      → IsConsistent s'
  write-IsConsistent s s' p d t e has news dials links v = record {
    in_range = rw t v.in_range;
    known = λ j h. ground (arith, e, news j h, v.known j, lookup-insert eq p j d s.peer_data);
    dialled =
        λ j h. ground (arith, e, has, dials j h, v.dialled j, lookup-insert eq p j d s.peer_data);
    linked =
        λ j h. ground (arith, e, has, links j h, v.linked j, lookup-insert eq p j d s.peer_data);
  }

  on_connection_established-IsConsistent :
      (s : PeerManager PeerId Multiaddr IdentifyInfo) (p : PeerId) (now : Instant)
      {s' : PeerManager PeerId Multiaddr IdentifyInfo}
      → on_connection_established eq s p now ≡ returns s'
      → IsConsistent s
      → IsConsistent s'
  unfolding on_connection_established
  on_connection_established-IsConsistent s p now h v =
      let ((d, c), found, e) = >>=-eq-returns (last_connection eq p s.peer_data) _ h in
      let (known, attempt) = last_connection-eq eq p s.peer_data found in
      let c' : ConnectionData = record c {
        established_timestamp = some now;
        connection_status = connected;
      } in
      let same = returns-injective e in
      subst IsConsistent same (
        write-IsConsistent s _ p (with_last d c') refl refl
          (ap is_some (last-set_last d.connection_history c c' attempt)) (λ j k. k)
          (λ j k. inl (contains_of_discard eq p j s.dialling_peers k))
          (λ j k. contains_of_add eq p j s.connected_peers k) v)

  on_connection_closed-IsConsistent :
      (profile : Profile) (s : PeerManager PeerId Multiaddr IdentifyInfo) (p : PeerId)
      (now : Instant) {s' : PeerManager PeerId Multiaddr IdentifyInfo}
      → on_connection_closed eq profile s p now ≡ returns s'
      → IsConsistent s
      → IsConsistent s'
  unfolding on_connection_closed
  on_connection_closed-IsConsistent profile s p now h v =
      let ((d, c), found, h') = >>=-eq-returns (last_connection eq p s.peer_data) _ h in
      let (known, attempt) = last_connection-eq eq p s.peer_data found in
      let c' : ConnectionData = record c {
        connection_status = disconnected;
        disconnect_timestamp = some now;
      } in
      let (d', updated, e) =
        >>=-eq-returns (update_average_connection_duration profile (with_last d c')) _ h' in
      let same = returns-injective e in
      subst IsConsistent same (
        write-IsConsistent s _ p d' refl refl
          (rw (update-history profile (with_last d c') updated)
            (ap is_some (last-set_last d.connection_history c c' attempt)))
          (λ j k. k) (λ j k. inl k) (λ j k. inl (contains_of_discard eq p j s.connected_peers k)) v)

  on_dial_failure-IsConsistent :
      (profile : Profile) (s : PeerManager PeerId Multiaddr IdentifyInfo) (o : Option PeerId)
      (now : Instant) {s' : PeerManager PeerId Multiaddr IdentifyInfo}
      → on_dial_failure eq profile s o now ≡ returns s'
      → IsConsistent s
      → IsConsistent s'
  unfolding on_dial_failure
  on_dial_failure-IsConsistent profile s none now h v = subst IsConsistent (returns-injective h) v
  on_dial_failure-IsConsistent profile s (some p) now h v =
      let ((d, c), found, h') = >>=-eq-returns (last_connection eq p s.peer_data) _ h in
      let (known, attempt) = last_connection-eq eq p s.peer_data found in
      let c' : ConnectionData = record c {
        connection_status = failed;
        failure_timestamp = some now;
      } in
      let (d', updated, e) =
        >>=-eq-returns (update_average_connection_duration profile (with_last d c')) _ h' in
      let same = returns-injective e in
      subst IsConsistent same (
        write-IsConsistent s _ p d' refl refl
          (rw (update-history profile (with_last d c') updated)
            (ap is_some (last-set_last d.connection_history c c' attempt)))
          (λ j k. k) (λ j k. inl (contains_of_discard eq p j s.dialling_peers k)) (λ j k. inl k) v)

  -- A swarm event that the manager handles without a panic keeps its tables consistent.
  pub on_swarm_event-IsConsistent :
      (profile : Profile) (s : PeerManager PeerId Multiaddr IdentifyInfo) (event : FromSwarm PeerId)
      (now : Instant) {s' : PeerManager PeerId Multiaddr IdentifyInfo}
      → on_swarm_event eq profile s event now ≡ returns s'
      → IsConsistent s
      → IsConsistent s'
  unfolding on_swarm_event
  on_swarm_event-IsConsistent profile s (connection_established p) now h v =
      on_connection_established-IsConsistent s p now h v
  on_swarm_event-IsConsistent profile s (connection_closed p) now h v =
      on_connection_closed-IsConsistent profile s p now h v
  on_swarm_event-IsConsistent profile s (dial_failure o) now h v =
      on_dial_failure-IsConsistent profile s o now h v
  on_swarm_event-IsConsistent profile s ignored now h v = subst IsConsistent (returns-injective h) v
