-- ===== src/PeerManager/Timeouts.antt =====
-- peer_manager.rs: what `timeout_dialling_peers` drops, and what it writes.
use cl_p2p_setup.Base.{
  ◌≡◌, refl, ite, Bool, true, false, not, ◌&&◌, Option, none, some, List, [], ◌∷◌, last,
  last-set_last, arith, if◌then◌else◌, inl, inr, Option-cases,
}
use cl_p2p_setup.Base.Tables.{lookup, contains, lookup-insert, discard, contains-discard}
use cl_p2p_setup.PeerManager.{PeerData, PeerManager, Instant, ConnectionData, timeout, with_last}
use cl_p2p_setup.PeerManager.Dialling.{
  is_overdue, check_dial, check_dials, discard_all, timeout_dialling_peers,
}

abbrev pub timed_out_connection : Instant → ConnectionData → ConnectionData
timed_out_connection now c = record c { connection_status = timeout; failure_timestamp = some now }

abbrev pub gives_up_last : Instant → Option ConnectionData → Bool
gives_up_last now none = true
gives_up_last now (some c) = is_overdue now c

timed_out-not_overdue :
    (now : Instant) (c : ConnectionData) → is_overdue now (timed_out_connection now c) ≡ false
unfolding is_overdue
timed_out-not_overdue now c = refl

module _ {Multiaddr : Type 0} where
  -- Whether a dial is given up: the peer is unknown, has no connection, or is overdue.
  abbrev pub gives_up : Instant → Option (PeerData Multiaddr) → Bool
  gives_up now none = true
  gives_up now (some d) = gives_up_last now (last d.connection_history)

  -- The data of a peer that was being dialled: an overdue connection is marked.
  abbrev pub mark_last : Instant → PeerData Multiaddr → Option ConnectionData → PeerData Multiaddr
  mark_last now d none = d
  mark_last now d (some c) =
      if is_overdue now c then with_last d (timed_out_connection now c) else d

  abbrev pub marked : Instant → Option (PeerData Multiaddr) → Option (PeerData Multiaddr)
  marked now none = none
  marked now (some d) = some (mark_last now d (last d.connection_history))

  marked_again :
      (now : Instant) (o : Option (PeerData Multiaddr)) → marked now (marked now o) ≡ marked now o
  marked_again now none = refl
  marked_again now (some d) = elim (Option-cases (last d.connection_history)) [
    | inl e ↦ ground arith
    | inr (c, e) ↦ ground (
      arith,
      last-set_last d.connection_history c (timed_out_connection now c) e,
      timed_out-not_overdue now c,
    )
  ]

  marked-not_given_up :
      (now : Instant) (o : Option (PeerData Multiaddr)) → gives_up now o ≡ false → marked now o ≡ o
  marked-not_given_up now none h = refl
  marked-not_given_up now (some d) h = ground arith

module _ {K : Type 0} (eq : Discrete K) where
  contains-discard_all :
      (ks s : List K) (j : K)
      → contains eq j (discard_all eq ks s) ≡ (contains eq j s && not (contains eq j ks))
  unfolding discard_all contains
  contains-discard_all [] s j = ground arith
  contains-discard_all (k ∷ ks) s j =
      ground (arith, contains-discard_all ks (discard eq k s) j, contains-discard eq k j s)

module _ {PeerId Multiaddr : Type 0} (eq : Discrete PeerId) where
  check_dial-dropped :
      (now : Instant) (p : PeerId) (m : List (PeerId × PeerData Multiaddr))
      → (check_dial eq now p m).1 ≡ gives_up now (lookup eq p m)
  unfolding check_dial
  check_dial-dropped now p m = ground arith

  check_dial-lookup :
      (now : Instant) (p j : PeerId) (m : List (PeerId × PeerData Multiaddr))
      → lookup eq j (check_dial eq now p m).0
        ≡ ite (eq p j) (marked now (lookup eq j m)) (lookup eq j m)
  unfolding check_dial
  check_dial-lookup now p j m = elim (Option-cases (lookup eq p m)) [
    | inl e ↦ ground arith
    | inr (d, e) ↦ elim (Option-cases (last d.connection_history)) [
      | inl e' ↦ ground arith
      | inr (c, e') ↦
          ground (arith, lookup-insert eq p j (with_last d (timed_out_connection now c)) m)
    ]
  ]

  check_dials-lookup :
      (now : Instant) (ps : List PeerId) (j : PeerId) (m : List (PeerId × PeerData Multiaddr))
      → lookup eq j (check_dials eq now ps m).0
        ≡ (if contains eq j ps then marked now (lookup eq j m) else lookup eq j m)
  unfolding check_dials contains
  check_dials-lookup now [] j m = refl
  check_dials-lookup now (p ∷ ps) j m = ground (
    arith,
    check_dials-lookup now ps j (check_dial eq now p m).0,
    check_dial-lookup now p j m,
    marked_again now (lookup eq j m),
  )

  check_dials-dropped :
      (now : Instant) (ps : List PeerId) (j : PeerId) (m : List (PeerId × PeerData Multiaddr))
      → contains eq j (check_dials eq now ps m).1
        ≡ (contains eq j ps && gives_up now (lookup eq j m))
  unfolding check_dials contains
  check_dials-dropped now [] j m = refl
  check_dials-dropped now (p ∷ ps) j m = ground (
    arith,
    check_dials-dropped now ps j (check_dial eq now p m).0,
    check_dial-lookup now p j m,
    check_dial-dropped now p m,
    marked-not_given_up now (lookup eq j m),
  )

module _ {PeerId Multiaddr IdentifyInfo : Type 0} (eq : Discrete PeerId) where
  -- After `timeout_dialling_peers` at time `now`, a peer is being dialled exactly when it was before
  -- and its dial is not given up: it is known, it has a connection attempt, and its last attempt is
  -- not one that still connects after more than `DIAL_TIMEOUT` milliseconds. In the data of a peer
  -- that was being dialled, such an overdue last attempt becomes a timeout that failed at `now`; all
  -- other data stays as it was.
  pub timeout_dialling_peers_lem :
      (s : PeerManager PeerId Multiaddr IdentifyInfo) (now : Instant) (j : PeerId)
      → (contains eq j (timeout_dialling_peers eq s now).dialling_peers
          ≡ (contains eq j s.dialling_peers && not (gives_up now (lookup eq j s.peer_data))))
        × (lookup eq j (timeout_dialling_peers eq s now).peer_data ≡ (
            if contains eq j s.dialling_peers
            then marked now (lookup eq j s.peer_data)
            else lookup eq j s.peer_data))
  unfolding timeout_dialling_peers
  timeout_dialling_peers_lem s now j = ground (
    arith,
    check_dials-lookup eq now s.dialling_peers j s.peer_data,
    check_dials-dropped eq now s.dialling_peers j s.peer_data,
    contains-discard_all eq (check_dials eq now s.dialling_peers s.peer_data).1 s.dialling_peers j,
  )
