-- ===== src/PeerManager/Dialling.antt =====
-- peer_manager.rs: which peers to dial, the start of a dial, and the dials that run out of time.
use cl_p2p_setup.Base.{
  ℕ, suc, ◌%◌, Bool, true, false, ◌&&◌, Option, none, some, List, [], ◌∷◌, ◌++◌, map, length, last,
  take, ltb, leb, ◌==◌, if◌then◌else◌,
}
use cl_p2p_setup.Base.Tables.{lookup, insert, add, discard}
use cl_p2p_setup.Base.Machine.{Outcome, returns, panics, ◌>>=◌, Profile, u32_mod, sub_word}
use cl_p2p_setup.PeerManager.{
  ConnectionStatus, connecting, disconnected, failed, timeout, ConnectionData, PeerData,
  PeerManager, Instant, duration_since, as_millis, dial_timeout, min_average_connection_duration,
  with_last,
}

abbrev pub is_connecting : ConnectionStatus → Bool
is_connecting connecting = true
is_connecting _ = false

-- Whether the last attempt ended, so that the peer may be dialled again.
abbrev pub has_ended : ConnectionStatus → Bool
has_ended failed = true
has_ended disconnected = true
has_ended _ = false

-- The connection attempt has been under way for longer than `DIAL_TIMEOUT`.
unfoldable pub is_overdue : Instant → ConnectionData → Bool
is_overdue now c =
    is_connecting c.connection_status
    && ltb dial_timeout (as_millis (duration_since now c.dial_timestamp))

abbrev pub millis_or_zero : Option ℕ → ℕ
millis_or_zero none = 0
millis_or_zero (some average) = average

abbrev pub new_connection_data : Instant → ConnectionData
new_connection_data now = record {
  established_timestamp = none;
  failure_timestamp = none;
  disconnect_timestamp = none;
  dial_timestamp = now;
  connection_status = connecting;
}

module _ {Multiaddr : Type 0} where
  unfoldable pub get_peer_score : PeerData Multiaddr → ℕ
  get_peer_score d = millis_or_zero d.average_connection_duration

  -- The two filters of `get_best_peers_for_redial`.
  unfoldable pub is_redialable : PeerData Multiaddr → Bool
  is_redialable d = elim (last d.connection_history) [
    | none ↦ false
    | some c ↦
        has_ended c.connection_status
        && ltb min_average_connection_duration (millis_or_zero d.average_connection_duration)
  ]

module _ {PeerId Multiaddr : Type 0} where
  unfoldable pub candidates :
      List (PeerId × PeerData Multiaddr) → List (PeerId × PeerData Multiaddr)
  candidates [] = []
  candidates ((peer_id, d) ∷ rest) =
      if is_redialable d then (peer_id, d) ∷ candidates rest else candidates rest

  -- `sort_by` on the scores, lowest first. The sort is stable, as in the standard library.
  unfoldable pub insert_sorted :
      PeerId × PeerData Multiaddr
      → List (PeerId × PeerData Multiaddr)
      → List (PeerId × PeerData Multiaddr)
  insert_sorted a [] = a ∷ []
  insert_sorted a (b ∷ rest) =
      if leb (get_peer_score a.1) (get_peer_score b.1)
      then a ∷ b ∷ rest
      else b ∷ insert_sorted a rest

  unfoldable pub sort_by_score :
      List (PeerId × PeerData Multiaddr) → List (PeerId × PeerData Multiaddr)
  sort_by_score [] = []
  sort_by_score (a ∷ rest) = insert_sorted a (sort_by_score rest)

  -- One round of the loop of `timeout_dialling_peers`: the data, and whether the peer is dropped.
  unfoldable pub check_dial :
      (eq : Discrete PeerId)
      → Instant
      → PeerId
      → List (PeerId × PeerData Multiaddr)
      → List (PeerId × PeerData Multiaddr) × Bool
  check_dial eq now peer_id peers = elim (lookup eq peer_id peers) [
    | none ↦ (peers, true)
    | some d ↦ elim (last d.connection_history) [
      | none ↦ (peers, true)
      | some c ↦
          let c' = record c { connection_status = timeout; failure_timestamp = some now } in
          if is_overdue now c
          then (insert eq peer_id (with_last d c') peers, true)
          else (peers, false)
    ]
  ]

  unfoldable pub check_dials :
      (eq : Discrete PeerId)
      → Instant
      → List PeerId
      → List (PeerId × PeerData Multiaddr)
      → List (PeerId × PeerData Multiaddr) × List PeerId
  check_dials eq now [] peers = (peers, [])
  check_dials eq now (peer_id ∷ rest) peers =
      let (peers', dropped) = check_dial eq now peer_id peers in
      let (peers'', timed_out) = check_dials eq now rest peers' in
      (peers'', if dropped then peer_id ∷ timed_out else timed_out)

-- The second loop: the peers that timed out are dialled no longer.
unfoldable pub discard_all : {K : Type 0} → Discrete K → List K → List K → List K
discard_all eq [] s = s
discard_all eq (k ∷ ks) s = discard_all eq ks (discard eq k s)

-- The loop of `get_new_peers_for_dialling`, which breaks when enough peers are taken.
unfoldable pub take_new : {K : Type 0} → ℕ → List K → List K → List K
take_new missing_peers taken [] = taken
take_new missing_peers taken (k ∷ ks) =
    if length taken == missing_peers then taken else take_new missing_peers (taken ++ k ∷ []) ks

module _ {PeerId Multiaddr IdentifyInfo : Type 0} where
  unfoldable pub get_best_peers_for_redial :
      PeerManager PeerId Multiaddr IdentifyInfo → ℕ → List PeerId
  get_best_peers_for_redial s num_peers =
      map (λ a. a.0) (take num_peers (sort_by_score (candidates s.peer_data)))

  unfoldable pub get_new_peers_for_dialling :
      PeerManager PeerId Multiaddr IdentifyInfo → ℕ → List PeerId
  get_new_peers_for_dialling s missing_peers = take_new missing_peers [] s.new_peers

module _ {PeerId Multiaddr IdentifyInfo : Type 0} (eq : Discrete PeerId) where
  unfoldable pub timeout_dialling_peers :
      PeerManager PeerId Multiaddr IdentifyInfo
      → Instant
      → PeerManager PeerId Multiaddr IdentifyInfo
  timeout_dialling_peers s now =
      let (peers, timed_out) = check_dials eq now s.dialling_peers s.peer_data in
      record s { peer_data = peers; dialling_peers = discard_all eq timed_out s.dialling_peers }

  unfoldable pub peer_connecting :
      PeerManager PeerId Multiaddr IdentifyInfo
      → PeerId
      → Instant
      → Outcome (PeerManager PeerId Multiaddr IdentifyInfo)
  peer_connecting s peer_id now = elim (lookup eq peer_id s.peer_data) [
    | none ↦ panics
    | some d ↦
        let d' = record d {
          connection_history = d.connection_history ++ new_connection_data now ∷ [];
        } in
        returns (record s {
          peer_data = insert eq peer_id d' s.peer_data;
          new_peers = discard eq peer_id s.new_peers;
        })
  ]

  -- The loop that starts the dials. The n-th round of it reads the time `clock n`.
  unfoldable pub start_dials :
      (clock : ℕ → Instant)
      → ℕ
      → List PeerId
      → PeerManager PeerId Multiaddr IdentifyInfo
      → Outcome (PeerManager PeerId Multiaddr IdentifyInfo)
  start_dials clock n [] s = returns s
  start_dials clock n (peer ∷ rest) s =
      peer_connecting (record s { dialling_peers = add eq peer s.dialling_peers }) peer (clock n)
      >>= start_dials clock (suc n) rest

  unfoldable pub get_peers_to_dial :
      Profile
      → (clock : ℕ → Instant) → PeerManager PeerId Multiaddr IdentifyInfo
      → ℕ
      → Outcome (PeerManager PeerId Multiaddr IdentifyInfo × List PeerId)
  get_peers_to_dial profile clock s missing_peers = do
    let best = get_best_peers_for_redial s missing_peers
    new_peers_to_dial ← sub_word u32_mod profile missing_peers (length best % u32_mod)
    let peers_to_dial =
        if ltb 0 new_peers_to_dial
        then best ++ get_new_peers_for_dialling s new_peers_to_dial
        else best
    s' ← start_dials clock 0 peers_to_dial s
    returns (s', peers_to_dial)
