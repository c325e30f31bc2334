-- ===== src/PeerManager.antt =====
-- peer_manager.rs: the data of the peer manager, and the bookkeeping of connections.
-- A hash set or map is a list in the order in which it iterates. An `Instant` is a count of
-- nanoseconds, and each `Instant::now()` is an argument, `now`. The logging is left out.
pub mod Dialling
pub mod Poll
pub mod Saved
pub mod Stored
pub mod Timeouts
pub mod Start
pub mod Safety
pub mod Heartbeat
pub mod Reach
pub mod Discover
pub mod Waiting
pub mod Tests
pub mod Invariant
pub mod Average
pub mod Redial
use cl_p2p_setup.Base.{
  ℕ, suc, ◌+◌, ◌-◌, ◌*◌, ◌/◌, ◌%◌, Bool, true, false, Option, none, some, List, [], ◌∷◌, ◌++◌,
  String, length, last, set_last,
}
use cl_p2p_setup.Base.Tables.{lookup, insert, contains, add, discard}
use cl_p2p_setup.Base.Machine.{
  Outcome, returns, panics, ◌>>=◌, Profile, usize_mod, add_word, mul_word, sub_word,
}

pub data ConnectionStatus : Type 0 where
  connecting connected disconnected failed timeout : ConnectionStatus

abbrev pub Instant : Type 0
Instant = ℕ

-- `Instant::duration_since` and `Instant - Instant`, which stop at zero.
abbrev pub duration_since : Instant → Instant → ℕ
duration_since now earlier = now - earlier

-- `Duration::as_millis`.
abbrev pub as_millis : ℕ → ℕ
as_millis nanos = nanos / 1_000_000

abbrev pub min_average_connection_duration : ℕ
min_average_connection_duration = 3000

abbrev pub dial_timeout : ℕ
dial_timeout = 5000

pub record ConnectionData : Type 0 where
  pub established_timestamp : Option Instant
  pub failure_timestamp : Option Instant
  pub disconnect_timestamp : Option Instant
  pub dial_timestamp : Instant
  pub connection_status : ConnectionStatus

pub record PeerData (Multiaddr : Type 0) : Type 0 where
  pub connection_history : List ConnectionData
  pub average_connection_duration : Option ℕ
  pub multiaddr : Option Multiaddr

-- The heartbeat timer is not here: its ticks are arguments of `poll`.
pub record PeerManager (PeerId Multiaddr IdentifyInfo : Type 0) : Type 0 where
  pub connected_peers : List PeerId
  pub dialling_peers : List PeerId
  pub new_peers : List PeerId
  pub peer_data : List (PeerId × PeerData Multiaddr)
  pub peer_identities : List (PeerId × IdentifyInfo)
  pub target_peer_number : ℕ
  pub peers_to_discover : ℕ
  pub waiting_for_peer_discovery : Bool

pub data PeerManagerEvent (PeerId : Type 0) : Type 0 where
  discover_peers : ℕ → PeerManagerEvent PeerId
  dial_peers : List PeerId → PeerManagerEvent PeerId

-- The swarm's events that the manager acts on; `ignored` is any other.
pub data FromSwarm (PeerId : Type 0) : Type 0 where
  connection_established connection_closed : PeerId → FromSwarm PeerId
  dial_failure : Option PeerId → FromSwarm PeerId
  ignored : FromSwarm PeerId

-- The `match` that computes `new_duration`, in nanoseconds.
unfoldable pub new_duration : ConnectionData → Outcome ℕ
new_duration c = elim c.connection_status [
  | failed ↦ returns 0
  | disconnected ↦ elim c.disconnect_timestamp [
    | some ended ↦ elim c.established_timestamp [
      | some began ↦ returns (duration_since ended began)
      | none ↦ returns 0
    ]
    | none ↦ returns 0
  ]
  | _ ↦ panics
]

-- The new average: the old one counts for as many attempts as there were before this one.
unfoldable pub average_with : Profile → Option ℕ → ℕ → ℕ → Outcome ℕ
average_with profile none attempts millis = returns (millis % usize_mod)
average_with profile (some old_average) attempts millis = do
  before ← sub_word usize_mod profile attempts 1
  total ← mul_word usize_mod profile old_average before
  sum ← add_word usize_mod profile total (millis % usize_mod)
  returns (sum / attempts)

module _ {Multiaddr : Type 0} where
  -- `PeerData::new`.
  abbrev pub new_peer_data : Option Multiaddr → PeerData Multiaddr
  new_peer_data address = record {
    connection_history = [];
    average_connection_duration = none;
    multiaddr = address;
  }

  -- What a write through `connection_history.last_mut()` makes of the peer's data.
  abbrev pub with_last : PeerData Multiaddr → ConnectionData → PeerData Multiaddr
  with_last d c = record d { connection_history = set_last d.connection_history c }

  unfoldable pub update_average_connection_duration :
      Profile → PeerData Multiaddr → Outcome (PeerData Multiaddr)
  update_average_connection_duration profile d = elim (last d.connection_history) [
    | none ↦ panics
    | some c ↦ do
      duration ← new_duration c
      average ←
          average_with profile d.average_connection_duration (length d.connection_history)
            (as_millis duration)
      returns (record d { average_connection_duration = some average })
  ]

module _ {PeerId Multiaddr : Type 0} (eq : Discrete PeerId) where
  -- `peer_data.get_mut(&peer_id).unwrap()`, then `connection_history.last_mut().expect(..)`.
  unfoldable pub last_connection :
      PeerId → List (PeerId × PeerData Multiaddr) → Outcome (PeerData Multiaddr × ConnectionData)
  last_connection peer_id peers = elim (lookup eq peer_id peers) [
    | none ↦ panics
    | some d ↦ elim (last d.connection_history) [ none ↦ panics | some c ↦ returns (d, c) ]
  ]

module _ {PeerId Multiaddr IdentifyInfo : Type 0} where
  unfoldable pub new : ℕ → PeerManager PeerId Multiaddr IdentifyInfo
  new target = record {
    connected_peers = [];
    dialling_peers = [];
    new_peers = [];
    peer_data = [];
    peer_identities = [];
    target_peer_number = target;
    peers_to_discover = 0;
    waiting_for_peer_discovery = false;
  }

module _ {PeerId Multiaddr IdentifyInfo : Type 0} (eq : Discrete PeerId) where
  unfoldable pub on_connection_established :
      PeerManager PeerId Multiaddr IdentifyInfo
      → PeerId
      → Instant
      → Outcome (PeerManager PeerId Multiaddr IdentifyInfo)
  on_connection_established s peer_id now = do
    (d, c) ← last_connection eq peer_id s.peer_data
    let c' = record c { established_timestamp = some now; connection_status = connected }
    returns (record s {
      peer_data = insert eq peer_id (with_last d c') s.peer_data;
      connected_peers = add eq peer_id s.connected_peers;
      dialling_peers = discard eq peer_id s.dialling_peers;
    })

  unfoldable pub on_connection_closed :
      Profile
      → PeerManager PeerId Multiaddr IdentifyInfo
      → PeerId
      → Instant
      → Outcome (PeerManager PeerId Multiaddr IdentifyInfo)
  on_connection_closed profile s peer_id now = do
    (d, c) ← last_connection eq peer_id s.peer_data
    let c' = record c { connection_status = disconnected; disconnect_timestamp = some now }
    d' ← update_average_connection_duration profile (with_last d c')
    returns (record s {
      peer_data = insert eq peer_id d' s.peer_data;
      connected_peers = discard eq peer_id s.connected_peers;
    })

  unfoldable pub on_dial_failure :
      Profile
      → PeerManager PeerId Multiaddr IdentifyInfo
      → Option PeerId
      → Instant
      → Outcome (PeerManager PeerId Multiaddr IdentifyInfo)
  on_dial_failure profile s none now = returns s
  on_dial_failure profile s (some peer_id) now = do
    (d, c) ← last_connection eq peer_id s.peer_data
    let c' = record c { connection_status = failed; failure_timestamp = some now }
    d' ← update_average_connection_duration profile (with_last d c')
    returns (record s {
      peer_data = insert eq peer_id d' s.peer_data;
      dialling_peers = discard eq peer_id s.dialling_peers;
    })

  unfoldable pub on_swarm_event :
      Profile
      → PeerManager PeerId Multiaddr IdentifyInfo
      → FromSwarm PeerId
      → Instant
      → Outcome (PeerManager PeerId Multiaddr IdentifyInfo)
  on_swarm_event profile s (connection_established peer_id) now =
      on_connection_established s peer_id now
  on_swarm_event profile s (connection_closed peer_id) now =
      on_connection_closed profile s peer_id now
  on_swarm_event profile s (dial_failure peer_id) now = on_dial_failure profile s peer_id now
  on_swarm_event profile s ignored now = returns s

  -- The addresses that the swarm is told for a peer: the one in its data, if any.
  unfoldable pub addresses_of_peer :
      PeerManager PeerId Multiaddr IdentifyInfo → PeerId → List Multiaddr
  addresses_of_peer s peer_id = elim (lookup eq peer_id s.peer_data) [
    | none ↦ []
    | some d ↦ elim d.multiaddr [ none ↦ [] | some address ↦ address ∷ [] ]
  ]

  unfoldable pub add_peer_identity :
      PeerManager PeerId Multiaddr IdentifyInfo
      → PeerId
      → IdentifyInfo
      → PeerManager PeerId Multiaddr IdentifyInfo
  add_peer_identity s peer_id identity = record s {
    peer_identities = insert eq peer_id identity s.peer_identities;
  }

  -- The loop of `add_peers` over the discovered peers.
  unfoldable pub add_each :
      List (PeerId × Option Multiaddr)
      → PeerManager PeerId Multiaddr IdentifyInfo
      → PeerManager PeerId Multiaddr IdentifyInfo
  add_each [] s = s
  add_each ((peer_id, address) ∷ rest) s = add_each rest (elim (lookup eq peer_id s.peer_data) [
    | some d ↦ s
    | none ↦ record s {
      peer_data = insert eq peer_id (new_peer_data address) s.peer_data;
      new_peers = add eq peer_id s.new_peers;
    }
  ])

  unfoldable pub add_peers :
      PeerManager PeerId Multiaddr IdentifyInfo
      → List (PeerId × Option Multiaddr)
      → PeerManager PeerId Multiaddr IdentifyInfo
  add_peers s peer_ids = record (add_each peer_ids s) { waiting_for_peer_discovery = false }
