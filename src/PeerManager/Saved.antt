-- ===== src/PeerManager/Saved.antt =====
-- peer_manager.rs: what `disconnect_all_peers` and `save_peer_data` leave of the connections.
mod Tests
use cl_p2p_setup.Base.{◌≡◌, true, Option, some, is_some, last}
use mathlib.Core.Option
use cl_p2p_setup.PeerManager.{PeerData, ConnectionData, disconnected, PeerManager}

module _ {Multiaddr : Type 0} where
  -- The data of a peer are there, and the last attempt was disconnected at some time.
  abbrev pub IsClosed : Option (PeerData Multiaddr) → Type 0
  IsClosed found =
      (d : PeerData Multiaddr) × (c : ConnectionData) × (found ≡ some d)
      × (last d.connection_history ≡ some c)
      × (c.connection_status ≡ disconnected)
      × (is_some c.disconnect_timestamp ≡ true)
