-- ===== src/PeerManager/Saved/Tests.antt =====
-- The small manager as it is saved and loaded, and the theorem there.
use cl_p2p_setup.Base.{ℕ, ◌/◌, ◌*◌, ◌≡◌, refl, Option, none, some, String, List, [], ◌∷◌}
use cl_p2p_setup.Base.Machine.{returns}
use cl_p2p_setup.PeerManager.{connecting, disconnected, failed, new}
use cl_p2p_setup.PeerManager.Stored.{
  SerdeMillis, StoredPeer, store_connection, store_peer, store_peers, restore_connection,
  restore_history, restore_peer, restore_peers,
}
use cl_p2p_setup.PeerManager.Poll.{load_peer_data}
use cl_p2p_setup.PeerManager.Tests.{Manager, four, attempt, peer}

-- An `Instant` is written in milliseconds; and of any two tables the text is the same.
abbrev millis : SerdeMillis
millis = record { serialize = λ t. t / 1_000_000; deserialize = λ n. some (n * 1_000_000) }

abbrev text : String
text = "{}"

abbrev serialize : List (ℕ × StoredPeer ℕ) → Option String
serialize stored = some text

-- Peer 1 was connected for 5 seconds at the end.
abbrev saved : Manager
saved = record four {
  connected_peers = [];
  peer_data =
      (
        1,
        record {
          connection_history =
              record (attempt disconnected) { disconnect_timestamp = some 5_001_000_000 } ∷ [];
          average_connection_duration = some 5000;
          multiaddr = none;
        },
      )
      ∷ (2, peer connecting none)
      ∷ (3, peer failed (some 4000))
      ∷ (
        4,
        record { connection_history = []; average_connection_duration = none; multiaddr = none },
      )
      ∷ [];
}

-- These times are whole milliseconds, and are read back as they were.
loads :
    load_peer_data millis
      (λ contents. some (store_peers millis saved.peer_data))
      (some (some text))
      (new {IdentifyInfo = ℕ} 4)
    ≡ returns (record (new 4) { peer_data = saved.peer_data })
unfolding new load_peer_data store_peers store_peer store_connection restore_peers restore_peer
    restore_history restore_connection
loads = refl
