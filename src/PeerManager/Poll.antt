-- ===== src/PeerManager/Poll.antt =====
-- peer_manager.rs: `poll` with its heartbeat, and what is done at the end of a run and at its start.
use cl_p2p_setup.Base.{
  ℕ, suc, ◌/◌, ◌%◌, Bool, true, not, ◌&&◌, Option, none, some, List, [], ◌∷◌, String, length,
  is_empty, ltb, if◌then◌else◌,
}
use cl_p2p_setup.Base.Swarm.{Poll, ready, pending}
use cl_p2p_setup.Base.Tables.{extend}
use cl_p2p_setup.Base.Machine.{Outcome, returns, panics, ◌>>=◌, Profile, u32_mod, sub_word}
use cl_p2p_setup.PeerManager.{
  PeerManager, PeerManagerEvent, discover_peers, dial_peers, Instant, on_connection_closed,
}
use cl_p2p_setup.PeerManager.Stored.{SerdeMillis, StoredPeer, store_peers, restore_peers}
use cl_p2p_setup.PeerManager.Dialling.{timeout_dialling_peers, get_peers_to_dial}

-- A tick of the heartbeat that is ready, with what the clock then shows: to
-- `timeout_dialling_peers`, and to each start of a dial.
pub record Tick : Type 0 where
  pub now : Instant
  pub clock : ℕ → Instant

module _ {PeerId Multiaddr IdentifyInfo : Type 0} (eq : Discrete PeerId) where
  unfoldable pub connected_and_dialling_peers :
      PeerManager PeerId Multiaddr IdentifyInfo → List PeerId
  connected_and_dialling_peers s = extend eq s.connected_peers s.dialling_peers

  -- The branch of the heartbeat that has peers to find.
  unfoldable pub request_dials :
      Profile
      → (clock : ℕ → Instant) → PeerManager PeerId Multiaddr IdentifyInfo
      → ℕ
      → Outcome (PeerManager PeerId Multiaddr IdentifyInfo × Option (PeerManagerEvent PeerId))
  request_dials profile clock s missing_peers = do
    (dialled, peers_to_dial) ← get_peers_to_dial eq profile clock s missing_peers
    to_discover ← sub_word u32_mod profile missing_peers (length peers_to_dial % u32_mod)
    returns (
      record dialled { peers_to_discover = to_discover },
      if is_empty peers_to_dial then none else some (dial_peers peers_to_dial),
    )

  -- The body of the heartbeat loop: the event with which `poll` returns, if it does.
  unfoldable pub beat :
      Profile
      → PeerManager PeerId Multiaddr IdentifyInfo
      → Tick
      → Outcome (PeerManager PeerId Multiaddr IdentifyInfo × Option (PeerManagerEvent PeerId))
  beat profile s tick = do
    let timed = timeout_dialling_peers eq s tick.now
    missing_peers ←
        sub_word u32_mod profile timed.target_peer_number
          (length (connected_and_dialling_peers timed) % u32_mod)
    if ltb (timed.peers_to_discover / 4) missing_peers
        then request_dials profile tick.clock timed missing_peers
        else returns (timed, none)

  -- `while heartbeat.poll_tick(cx).is_ready()`, over the ticks that are ready.
  unfoldable pub beats :
      Profile
      → List Tick
      → PeerManager PeerId Multiaddr IdentifyInfo
      → Outcome (PeerManager PeerId Multiaddr IdentifyInfo × Poll (PeerManagerEvent PeerId))
  beats profile [] s = returns (s, pending)
  beats profile (tick ∷ ticks) s = beat profile s tick >>= λ (s', event). elim event [
    | none ↦ beats profile ticks s'
    | some e ↦ returns (s', ready e)
  ]

  unfoldable pub poll :
      Profile
      → List Tick
      → PeerManager PeerId Multiaddr IdentifyInfo
      → Outcome (PeerManager PeerId Multiaddr IdentifyInfo × Poll (PeerManagerEvent PeerId))
  poll profile ticks s =
      if not s.waiting_for_peer_discovery && ltb 0 s.peers_to_discover
      then returns (
        record s { peers_to_discover = 0; waiting_for_peer_discovery = true },
        ready (discover_peers s.peers_to_discover),
      )
      else beats profile ticks s

  -- The loop of `disconnect_all_peers`. The n-th round of it reads the time `clock n`.
  unfoldable pub close_all :
      Profile
      → (clock : ℕ → Instant) → ℕ
      → List PeerId
      → PeerManager PeerId Multiaddr IdentifyInfo
      → Outcome (PeerManager PeerId Multiaddr IdentifyInfo)
  close_all profile clock n [] s = returns s
  close_all profile clock n (peer ∷ rest) s =
      on_connection_closed eq profile s peer (clock n) >>= close_all profile clock (suc n) rest

  unfoldable pub disconnect_all_peers :
      Profile
      → (clock : ℕ → Instant) → PeerManager PeerId Multiaddr IdentifyInfo
      → Outcome (PeerManager PeerId Multiaddr IdentifyInfo)
  disconnect_all_peers profile clock s = close_all profile clock 0 s.connected_peers s

  -- `write` creates the file and writes the text; `serialize` is serde_json's, and `millis` what
  -- serde_millis makes of the timestamps. The text written is the result beside the state.
  unfoldable pub save_peer_data :
      SerdeMillis
      → (serialize : List (PeerId × StoredPeer Multiaddr) → Option String) → (write : String → Bool)
      → Profile
      → (clock : ℕ → Instant) → PeerManager PeerId Multiaddr IdentifyInfo
      → Outcome (PeerManager PeerId Multiaddr IdentifyInfo × String)
  save_peer_data millis serialize write profile clock s = do
    s' ← disconnect_all_peers profile clock s
    elim (serialize (store_peers millis s'.peer_data)) [
      | none ↦ panics
      | some text ↦ if write text then returns (s', text) else panics
    ]

module _ {PeerId Multiaddr IdentifyInfo : Type 0} where
  -- `file` is none if there is no such file, and `some none` if it cannot be read; `deserialize` is
  -- serde_json's, and `millis` what serde_millis makes of the timestamps.
  unfoldable pub load_peer_data :
      SerdeMillis
      → (deserialize : String → Option (List (PeerId × StoredPeer Multiaddr)))
      → (file : Option (Option String)) → PeerManager PeerId Multiaddr IdentifyInfo
      → Outcome (PeerManager PeerId Multiaddr IdentifyInfo)
  load_peer_data millis deserialize none s = returns s
  load_peer_data millis deserialize (some none) s = panics
  load_peer_data millis deserialize (some (some contents)) s = elim (deserialize contents) [
    | none ↦ panics
    | some stored ↦ elim (restore_peers millis stored) [
      | none ↦ panics
      | some peers ↦ returns (record s { peer_data = peers })
    ]
  ]
