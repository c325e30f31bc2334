-- ===== src/PeerManager/Waiting.antt =====
-- peer_manager.rs: what leaves alone whether the manager waits for discovered peers.
use cl_p2p_setup.Base.{
  ℕ, suc, ◌/◌, ◌%◌, ◌≡◌, refl, sym, ap, ◌∙◌, true, false, not, ◌&&◌, Option, none, some, List, [],
  ◌∷◌, ◌++◌, length, ltb, inl, inr, Bool-cases, Option-cases, if◌then◌else◌, arith,
}
use cl_p2p_setup.Base.Swarm.{Poll}
use cl_p2p_setup.Base.Tables.{add}
use cl_p2p_setup.Base.Machine.{
  returns, Profile, u32_mod, sub_word, returns-injective, >>=-eq-returns,
}
use cl_p2p_setup.PeerManager.{
  PeerManager, PeerManagerEvent, FromSwarm, connection_established, connection_closed, dial_failure,
  ignored, Instant, on_swarm_event, on_connection_established, on_connection_closed,
  on_dial_failure, last_connection, ConnectionData, disconnected, failed,
  update_average_connection_duration, with_last,
}
use cl_p2p_setup.PeerManager.Dialling.{
  timeout_dialling_peers, peer_connecting, start_dials, get_peers_to_dial,
  get_best_peers_for_redial, get_new_peers_for_dialling,
}
use cl_p2p_setup.PeerManager.Poll.{
  Tick, connected_and_dialling_peers, request_dials, beat, beats, poll,
}

module _ {PeerId Multiaddr IdentifyInfo : Type 0} (eq : Discrete PeerId) where
  peer_connecting-waits :
      (s t : PeerManager PeerId Multiaddr IdentifyInfo) (p : PeerId) (now : Instant)
      → peer_connecting eq s p now ≡ returns t
      → t.waiting_for_peer_discovery ≡ s.waiting_for_peer_discovery
  unfolding peer_connecting
  peer_connecting-waits s t p now h = ground arith

  start_dials-waits :
      (clock : ℕ → Instant) (n : ℕ) (peers : List PeerId)
      (s t : PeerManager PeerId Multiaddr IdentifyInfo)
      → start_dials eq clock n peers s ≡ returns t
      → t.waiting_for_peer_discovery ≡ s.waiting_for_peer_discovery
  unfolding start_dials
  start_dials-waits clock n [] s t h =
      ap (λ m. m.waiting_for_peer_discovery) (sym (returns-injective h))
  start_dials-waits clock n (p ∷ peers) s t h =
      let dialling = record s { dialling_peers = add eq p s.dialling_peers } in
      let (m, e, f) = >>=-eq-returns (peer_connecting eq dialling p (clock n)) _ h in
      start_dials-waits clock (suc n) peers m t f ∙ peer_connecting-waits dialling m p (clock n) e

  get_peers_to_dial-waits :
      (profile : Profile) (clock : ℕ → Instant) (s t : PeerManager PeerId Multiaddr IdentifyInfo)
      (missing : ℕ) (peers : List PeerId)
      → get_peers_to_dial eq profile clock s missing ≡ returns (t, peers)
      → t.waiting_for_peer_discovery ≡ s.waiting_for_peer_discovery
  unfolding get_peers_to_dial
  get_peers_to_dial-waits profile clock s t missing peers h =
      let best = get_best_peers_for_redial s missing in
      let (more, e, f) =
        >>=-eq-returns (sub_word u32_mod profile missing (length best % u32_mod)) _ h in
      let dials = if ltb 0 more then best ++ get_new_peers_for_dialling s more else best in
      let (m, g, k) = >>=-eq-returns (start_dials eq clock 0 dials s) _ f in
      ap (λ r. r.0.waiting_for_peer_discovery) (sym (returns-injective k))
      ∙ start_dials-waits clock 0 dials s m g

  request_dials-waits :
      (profile : Profile) (clock : ℕ → Instant) (s t : PeerManager PeerId Multiaddr IdentifyInfo)
      (missing : ℕ) (event : Option (PeerManagerEvent PeerId))
      → request_dials eq profile clock s missing ≡ returns (t, event)
      → t.waiting_for_peer_discovery ≡ s.waiting_for_peer_discovery
  unfolding request_dials
  request_dials-waits profile clock s t missing event h =
      let ((m, peers), e, f) = >>=-eq-returns (get_peers_to_dial eq profile clock s missing) _ h in
      let (n, g, k) =
        >>=-eq-returns (sub_word u32_mod profile missing (length peers % u32_mod)) _ f in
      ap (λ r. r.0.waiting_for_peer_discovery) (sym (returns-injective k))
      ∙ get_peers_to_dial-waits profile clock s m missing peers e

  beat-waits :
      (profile : Profile) (s t : PeerManager PeerId Multiaddr IdentifyInfo) (tick : Tick)
      (event : Option (PeerManagerEvent PeerId))
      → beat eq profile s tick ≡ returns (t, event)
      → t.waiting_for_peer_discovery ≡ s.waiting_for_peer_discovery
  unfolding beat timeout_dialling_peers
  beat-waits profile s t tick event h =
      let timed = timeout_dialling_peers eq s tick.now in
      let (missing, e, f) =
        >>=-eq-returns
          (sub_word u32_mod profile timed.target_peer_number
            (length (connected_and_dialling_peers eq timed) % u32_mod))
          _ h in
      elim (Bool-cases (ltb (timed.peers_to_discover / 4) missing)) [
        | inl b ↦ request_dials-waits profile tick.clock timed t missing event (rw b at f)
        | inr b ↦ ap (λ r. r.0.waiting_for_peer_discovery) (sym (returns-injective (rw b at f)))
      ]

  beats-waits :
      (profile : Profile) (ticks : List Tick) (s t : PeerManager PeerId Multiaddr IdentifyInfo)
      (answer : Poll (PeerManagerEvent PeerId))
      → beats eq profile ticks s ≡ returns (t, answer)
      → t.waiting_for_peer_discovery ≡ s.waiting_for_peer_discovery
  unfolding beats
  beats-waits profile [] s t answer h =
      ap (λ r. r.0.waiting_for_peer_discovery) (sym (returns-injective h))
  beats-waits profile (tick ∷ ticks) s t answer h =
      let ((m, event), e, f) = >>=-eq-returns (beat eq profile s tick) _ h in
      elim (Option-cases event) [
        | inl none_yet ↦
            beats-waits profile ticks m t answer (rw none_yet at f)
            ∙ beat-waits profile s m tick event e
        | inr (x, found) ↦
            ap (λ r. r.0.waiting_for_peer_discovery) (sym (returns-injective (rw found at f)))
            ∙ beat-waits profile s m tick event e
      ]

  pub poll-waits :
      (profile : Profile) (ticks : List Tick) (s t : PeerManager PeerId Multiaddr IdentifyInfo)
      (answer : Poll (PeerManagerEvent PeerId))
      → s.waiting_for_peer_discovery ≡ true
      → poll eq profile ticks s ≡ returns (t, answer)
      → t.waiting_for_peer_discovery ≡ true
  unfolding poll
  poll-waits profile ticks s t answer w h =
      let idle : (not s.waiting_for_peer_discovery && ltb 0 s.peers_to_discover) ≡ false =
        rw w refl in
      beats-waits profile ticks s t answer (rw idle at h) ∙ w

  pub on_swarm_event-waits :
      (profile : Profile) (s t : PeerManager PeerId Multiaddr IdentifyInfo)
      (event : FromSwarm PeerId) (now : Instant)
      → on_swarm_event eq profile s event now ≡ returns t
      → t.waiting_for_peer_discovery ≡ s.waiting_for_peer_discovery
  unfolding on_swarm_event on_connection_established on_connection_closed on_dial_failure
  on_swarm_event-waits profile s t (connection_established p) now h =
      let (m, e, f) = >>=-eq-returns (last_connection eq p s.peer_data) _ h in
      ap (λ m. m.waiting_for_peer_discovery) (sym (returns-injective f))
  on_swarm_event-waits profile s t (connection_closed p) now h =
      let ((d, c), e, f) = >>=-eq-returns (last_connection eq p s.peer_data) _ h in
      let c' : ConnectionData = record c {
        connection_status = disconnected;
        disconnect_timestamp = some now;
      } in
      let (d', g, k) =
        >>=-eq-returns (update_average_connection_duration profile (with_last d c')) _ f in
      ap (λ m. m.waiting_for_peer_discovery) (sym (returns-injective k))
  on_swarm_event-waits profile s t (dial_failure none) now h =
      ap (λ m. m.waiting_for_peer_discovery) (sym (returns-injective h))
  on_swarm_event-waits profile s t (dial_failure (some p)) now h =
      let ((d, c), e, f) = >>=-eq-returns (last_connection eq p s.peer_data) _ h in
      let c' : ConnectionData = record c {
        connection_status = failed;
        failure_timestamp = some now;
      } in
      let (d', g, k) =
        >>=-eq-returns (update_average_connection_duration profile (with_last d c')) _ f in
      ap (λ m. m.waiting_for_peer_discovery) (sym (returns-injective k))
  on_swarm_event-waits profile s t ignored now h =
      ap (λ m. m.waiting_for_peer_discovery) (sym (returns-injective h))
