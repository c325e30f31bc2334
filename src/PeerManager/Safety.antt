-- ===== src/PeerManager/Safety.antt =====
-- peer_manager.rs: what the dialling of missing peers asks for; it keeps the tables consistent, and does not panic.
use native.Mathlib.Nat.{mod-eq_of_lt}
use cl_p2p_setup.Base.{
  ℕ, ◌+◌, ◌-◌, ◌≤◌, ◌<◌, ◌≡◌, inl, inr, true, Option, none, some, List, ◌++◌, arith, length,
  Bool-cases, ltb, is_empty, if◌then◌else◌, length-append,
}
use cl_p2p_setup.Base.Lists.{is_some, All, All-map, All-append, All-take, All-under_map}
use cl_p2p_setup.Base.Tables.{lookup, contains-All, lookup-All}
use cl_p2p_setup.Base.Machine.{Outcome, returns, ◌>>=◌, Profile, u32_mod, sub_word-returns}
use cl_p2p_setup.PeerManager.{PeerData, PeerManager, PeerManagerEvent, dial_peers, Instant}
use cl_p2p_setup.PeerManager.Dialling.{
  get_best_peers_for_redial, get_new_peers_for_dialling, start_dials, get_peers_to_dial,
}
use cl_p2p_setup.PeerManager.Poll.{request_dials}
use cl_p2p_setup.PeerManager.Redial.{
  candidates-All, sort_by_score-All, length-get_best_peers_for_redial,
  get_new_peers_for_dialling-take, length-take-le,
}
use cl_p2p_setup.PeerManager.Invariant.{IsConsistent}
use cl_p2p_setup.PeerManager.Start.{IsDialled, start_dials-AllStarted}

module _ {PeerId Multiaddr IdentifyInfo : Type 0} (eq : Discrete PeerId) where
  best-known :
      (s : PeerManager PeerId Multiaddr IdentifyInfo) (n : ℕ)
      → All (λ p. is_some (lookup eq p s.peer_data) ≡ true) (get_best_peers_for_redial s n)
  unfolding get_best_peers_for_redial
  best-known s n =
      let Known : PeerId × PeerData Multiaddr → Type 0 =
        λ e. is_some (lookup eq e.0 s.peer_data) ≡ true in
      All-under_map (λ (e : PeerId × PeerData Multiaddr). e.0) _ _
        (All-take Known n _ (
          sort_by_score-All Known _ (candidates-All Known s.peer_data (lookup-All eq s.peer_data))))

  new-known :
      (s : PeerManager PeerId Multiaddr IdentifyInfo) (n : ℕ)
      → IsConsistent eq s
      → All (λ p. is_some (lookup eq p s.peer_data) ≡ true) (get_new_peers_for_dialling s n)
  new-known s n v =
      rw (get_new_peers_for_dialling-take s n)
        (All-take _ n s.new_peers (All-map _ _ s.new_peers v.known (contains-All eq s.new_peers)))

  length-new-le :
      (s : PeerManager PeerId Multiaddr IdentifyInfo) (n : ℕ)
      → length (get_new_peers_for_dialling s n) ≤ n
  length-new-le s n = rw (get_new_peers_for_dialling-take s n) (length-take-le n s.new_peers)

  -- The peers that `get_peers_to_dial` chooses.
  abbrev chosen_peers : PeerManager PeerId Multiaddr IdentifyInfo → ℕ → List PeerId
  chosen_peers s missing =
      let best = get_best_peers_for_redial s missing in
      if ltb 0 (missing - length best)
      then best ++ get_new_peers_for_dialling s (missing - length best)
      else best

  chosen-known :
      (s : PeerManager PeerId Multiaddr IdentifyInfo) (n : ℕ)
      → IsConsistent eq s
      → All (λ p. is_some (lookup eq p s.peer_data) ≡ true) (chosen_peers s n)
  chosen-known s n v =
      let best = get_best_peers_for_redial s n in
      elim (Bool-cases (ltb 0 (n - length best))) [
        | inl e ↦ rw e (All-append _ best _ (best-known s n) (new-known s (n - length best) v))
        | inr e ↦ rw e (best-known s n)
      ]

  length-chosen-le :
      (s : PeerManager PeerId Multiaddr IdentifyInfo) (n : ℕ) → length (chosen_peers s n) ≤ n
  length-chosen-le s n =
      let best = get_best_peers_for_redial s n in
      let bounded = length-get_best_peers_for_redial s n in
      elim (Bool-cases (ltb 0 (n - length best))) [
        | inl e ↦ rw e (
            omega (
              arith,
              length-append best (get_new_peers_for_dialling s (n - length best)),
              length-new-le s (n - length best),
            ))
        | inr e ↦ rw e bounded
      ]

  get_peers_to_dial-chosen :
      (profile : Profile) (clock : ℕ → Instant) (s : PeerManager PeerId Multiaddr IdentifyInfo)
      (n : ℕ)
      → n < u32_mod
      → get_peers_to_dial eq profile clock s n
        ≡ (start_dials eq clock 0 (chosen_peers s n) s >>= λ s'. returns (s', chosen_peers s n))
  unfolding get_peers_to_dial
  get_peers_to_dial-chosen profile clock s n h =
      let bounded = length-get_best_peers_for_redial s n in
      rw (
        mod-eq_of_lt {n = length (get_best_peers_for_redial s n)} {m = u32_mod} (omega arith),
        sub_word-returns u32_mod profile n (length (get_best_peers_for_redial s n)) bounded,
      )

  -- What `request_dials` makes of `missing` peers: it dials `peers`, and leaves the others to be
  -- discovered.
  pub record HasRequested (s : PeerManager PeerId Multiaddr IdentifyInfo) (missing : ℕ)
      (r : Outcome (PeerManager PeerId Multiaddr IdentifyInfo × Option (PeerManagerEvent PeerId)))
      : Type 0 where
    pub state : PeerManager PeerId Multiaddr IdentifyInfo
    pub peers : List PeerId
    pub result : r ≡ returns (state, if is_empty peers then none else some (dial_peers peers))
    pub are_dialled : All (IsDialled eq state) peers
    pub divided : length peers + state.peers_to_discover ≡ missing
    pub consistent : IsConsistent eq state
    pub same_target : state.target_peer_number ≡ s.target_peer_number
    pub same_connected : state.connected_peers ≡ s.connected_peers
    pub same_waiting : state.waiting_for_peer_discovery ≡ s.waiting_for_peer_discovery

  pub request_dials-HasRequested :
      (profile : Profile) (clock : ℕ → Instant) (s : PeerManager PeerId Multiaddr IdentifyInfo)
      (missing : ℕ)
      → missing < u32_mod
      → IsConsistent eq s
      → HasRequested s missing (request_dials eq profile clock s missing)
  unfolding request_dials
  request_dials-HasRequested profile clock s missing h v =
      let peers = chosen_peers s missing in
      let bounded = length-chosen-le s missing in
      let started = start_dials-AllStarted eq clock 0 peers s v (chosen-known s missing v) in
      record {
        state = record (started.state) { peers_to_discover = missing - length peers };
        peers = peers;
        result = rw (
          get_peers_to_dial-chosen profile clock s missing h,
          started.result,
          mod-eq_of_lt {n = length peers} {m = u32_mod} (omega arith),
          sub_word-returns u32_mod profile missing (length peers) bounded,
        );
        are_dialled =
            All-map _ _ peers
              (λ j i. record { in_set = i.in_set; under_way = i.under_way; not_new = i.not_new })
              started.are_dialled;
        divided = omega arith;
        consistent =
            let c = started.consistent in
            record {
              in_range = c.in_range;
              known = c.known;
              dialled = c.dialled;
              linked = c.linked;
            };
        same_target = started.same_target;
        same_connected = started.same_connected;
        same_waiting = started.same_waiting;
      }
