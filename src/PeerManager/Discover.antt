-- ===== src/PeerManager/Discover.antt =====
-- peer_manager.rs: when the manager asks for discovery, and what a connection does to the tables.
use cl_p2p_setup.Base.{
  ℕ, ◌<◌, ◌≡◌, ite, ◌/◌, length, ◌↔◌, refl, Bool, true, false, Option, none, some, List, [], ◌∷◌,
  arith, inl, inr, Bool-cases, ltb, ◌%◌, Option-cases, last, set_last, subst,
}
use cl_p2p_setup.Base.Swarm.{ready}
use cl_p2p_setup.Base.Tables.{lookup, contains, lookup-insert, contains-add, contains-discard}
use cl_p2p_setup.Base.Machine.{
  returns, panics, Profile, sub_word, u32_mod, returns-injective, >>=-eq-returns,
}
use cl_p2p_setup.PeerManager.{
  PeerData, ConnectionData, connected, PeerManager, PeerManagerEvent, discover_peers, dial_peers,
  Instant, with_last, last_connection, on_connection_established,
}
use cl_p2p_setup.PeerManager.Poll.{
  Tick, connected_and_dialling_peers, request_dials, beat, beats, poll,
}
use cl_p2p_setup.PeerManager.Dialling.{timeout_dialling_peers}
use cl_p2p_setup.PeerManager.Invariant.{has_attempt, last_connection-eq}

abbrev discovers : {PeerId : Type 0} → Option (PeerManagerEvent PeerId) → Bool
discovers none = false
discovers (some (discover_peers n)) = true
discovers (some (dial_peers ps)) = false

module _ {PeerId Multiaddr IdentifyInfo : Type 0} (eq : Discrete PeerId) where
  request_dials-no_discovery :
      (profile : Profile) (clock : ℕ → Instant) (s s' : PeerManager PeerId Multiaddr IdentifyInfo)
      (missing : ℕ) (event : Option (PeerManagerEvent PeerId))
      → request_dials eq profile clock s missing ≡ returns (s', event)
      → discovers event ≡ false
  unfolding request_dials
  request_dials-no_discovery profile clock s s' missing event h = ground arith

  beat-no_discovery :
      (profile : Profile) (s s' : PeerManager PeerId Multiaddr IdentifyInfo) (tick : Tick)
      (event : Option (PeerManagerEvent PeerId))
      → beat eq profile s tick ≡ returns (s', event)
      → discovers event ≡ false
  unfolding beat
  beat-no_discovery profile s s' tick event h =
      let timed = timeout_dialling_peers eq s tick.now in
      let (missing, e, h') =
        >>=-eq-returns
          (sub_word u32_mod profile timed.target_peer_number
            (length (connected_and_dialling_peers eq timed) % u32_mod))
          _ h in
      elim (Bool-cases (ltb (timed.peers_to_discover / 4) missing)) [
        | inl t ↦ request_dials-no_discovery profile tick.clock timed s' missing event (rw t at h')
        | inr t ↦ ground arith
      ]

  pub beats-no_discovery :
      (profile : Profile) (ticks : List Tick) (s s' : PeerManager PeerId Multiaddr IdentifyInfo)
      (n : ℕ)
      → beats eq profile ticks s ≡ returns (s', ready (discover_peers n))
      → ⊥
  unfolding beats
  beats-no_discovery profile [] s s' n h = cc
  beats-no_discovery profile (tick ∷ ticks) s s' n h =
      let ((t, event), e, h') = >>=-eq-returns (beat eq profile s tick) _ h in
      let plain = beat-no_discovery profile s t tick event e in
      elim (Option-cases event) [
        | inl none_yet ↦ beats-no_discovery profile ticks t s' n (rw none_yet at h')
        | inr (e', found) ↦ ground arith
      ]

  -- A poll asks to discover `n` peers only if it is not waiting for discovered peers already, and `n`
  -- is then the number of peers that were still to be discovered, not zero; from then on the manager
  -- waits, with none left to ask for.
  pub poll-discover :
      (profile : Profile) (ticks : List Tick) (s s' : PeerManager PeerId Multiaddr IdentifyInfo)
      (n : ℕ)
      → poll eq profile ticks s ≡ returns (s', ready (discover_peers n))
      → (s.waiting_for_peer_discovery ≡ false)
        × (n ≡ s.peers_to_discover)
        × (0 < n)
        × (s' ≡ record s { peers_to_discover = 0; waiting_for_peer_discovery = true })
  unfolding poll
  poll-discover profile ticks s s' n h = ground (arith, beats-no_discovery profile ticks s s' n)

  -- A connection to a peer is handled exactly if the peer is known and was dialled before: for an
  -- unknown peer that connects to this node the handler panics.
  pub on_connection_established-eq-panics :
      (s : PeerManager PeerId Multiaddr IdentifyInfo) (p : PeerId) (now : Instant)
      → (on_connection_established eq s p now ≡ panics)
        ↔ (has_attempt (lookup eq p s.peer_data) ≡ false)
  unfolding on_connection_established last_connection
  on_connection_established-eq-panics s p now = elim (Option-cases (lookup eq p s.peer_data)) [
    | inl e ↦ ground arith
    | inr (d, e) ↦ elim (Option-cases (last d.connection_history)) [
      | inl e' ↦ ground arith
      | inr (c, e') ↦ ground arith
    ]
  ]

  -- If a connection to `p` is handled, `p` has data with a last attempt. After it the data of `p` are
  -- those from before, except that the last attempt is marked as connected at `now`; `p` is connected
  -- and no longer dialled; any other peer `j` stands in the data and in both sets as before; and the
  -- rest of the manager is left as it is.
  pub on_connection_established_lem :
      (s s' : PeerManager PeerId Multiaddr IdentifyInfo) (p : PeerId) (now : Instant) (j : PeerId)
      → on_connection_established eq s p now ≡ returns s'
      → (d : PeerData Multiaddr) × (c : ConnectionData) × (lookup eq p s.peer_data ≡ some d)
        × (last d.connection_history ≡ some c)
        × (lookup eq j s'.peer_data
            ≡ ite
                (eq p j)
                (some (record d {
                  connection_history = set_last d.connection_history (record c {
                    established_timestamp = some now;
                    connection_status = connected;
                  });
                }))
                (lookup eq j s.peer_data))
        × (contains eq j s'.connected_peers ≡ ite (eq p j) true (contains eq j s.connected_peers))
        × (contains eq j s'.dialling_peers ≡ ite (eq p j) false (contains eq j s.dialling_peers))
        × (s' ≡ record s {
          peer_data = s'.peer_data;
          connected_peers = s'.connected_peers;
          dialling_peers = s'.dialling_peers;
        })
  unfolding on_connection_established
  on_connection_established_lem s s' p now j h =
      let ((d, c), found, e) = >>=-eq-returns (last_connection eq p s.peer_data) _ h in
      let (known, attempt) = last_connection-eq eq p s.peer_data found in
      let c' : ConnectionData = record c {
        established_timestamp = some now;
        connection_status = connected;
      } in
      let same = returns-injective e in
      (
        d,
        c,
        known,
        attempt,
        ground (arith, lookup-insert eq p j (with_last d c') s.peer_data),
        ground (arith, contains-add eq p j s.connected_peers),
        ground (arith, contains-discard eq p j s.dialling_peers),
        subst
            (λ (t : PeerManager PeerId Multiaddr IdentifyInfo). t ≡ record s {
              peer_data = t.peer_data;
              connected_peers = t.connected_peers;
              dialling_peers = t.dialling_peers;
            })
            same refl,
      )
