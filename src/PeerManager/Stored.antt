-- ===== src/PeerManager/Stored.antt =====
-- peer_manager.rs: the peer data as they are stored. The timestamps are written `with = "serde_millis"`,
-- as whole milliseconds; the rest of an entry is written as it is.
use mathlib.Core.Option
use cl_p2p_setup.Base.{ℕ, Option, none, some, List, [], ◌∷◌, map}
use cl_p2p_setup.PeerManager.{Instant, ConnectionStatus, ConnectionData, PeerData}

-- `serde_millis` on an `Instant`: the milliseconds that it is written as, and the `Instant` that is read
-- of them, if one is. Both depend on the clocks when the data are written or read.
pub record SerdeMillis : Type 0 where
  pub serialize : Instant → ℕ
  pub deserialize : ℕ → Option Instant

pub record StoredConnection : Type 0 where
  pub established_timestamp : Option ℕ
  pub failure_timestamp : Option ℕ
  pub disconnect_timestamp : Option ℕ
  pub dial_timestamp : ℕ
  pub connection_status : ConnectionStatus

pub record StoredPeer (Multiaddr : Type 0) : Type 0 where
  pub connection_history : List StoredConnection
  pub average_connection_duration : Option ℕ
  pub multiaddr : Option Multiaddr

-- A timestamp that may be absent.
abbrev pub store_timestamp : SerdeMillis → Option Instant → Option ℕ
store_timestamp millis = Option.map millis.serialize

-- It is read back, and `none` is a failure to read it.
abbrev pub restore_timestamp : SerdeMillis → Option ℕ → Option (Option Instant)
restore_timestamp millis none = some none
restore_timestamp millis (some n) = Option.map some (millis.deserialize n)

unfoldable pub store_connection : SerdeMillis → ConnectionData → StoredConnection
store_connection millis c = record {
  established_timestamp = store_timestamp millis c.established_timestamp;
  failure_timestamp = store_timestamp millis c.failure_timestamp;
  disconnect_timestamp = store_timestamp millis c.disconnect_timestamp;
  dial_timestamp = millis.serialize c.dial_timestamp;
  connection_status = c.connection_status;
}

infixl 5 ◌>>=◌
abbrev ◌>>=◌ {ℓ κ} : {A : Type ℓ} {B : Type κ} → Option A → (A → Option B) → Option B
none >>= f = none
some a >>= f = f a

unfoldable pub restore_connection : SerdeMillis → StoredConnection → Option ConnectionData
restore_connection millis c = do
  established ← restore_timestamp millis c.established_timestamp
  failure ← restore_timestamp millis c.failure_timestamp
  disconnect ← restore_timestamp millis c.disconnect_timestamp
  dial ← millis.deserialize c.dial_timestamp
  some (record {
    established_timestamp = established;
    failure_timestamp = failure;
    disconnect_timestamp = disconnect;
    dial_timestamp = dial;
    connection_status = c.connection_status;
  })

unfoldable pub restore_history : SerdeMillis → List StoredConnection → Option (List ConnectionData)
restore_history millis [] = some []
restore_history millis (c ∷ history) = do
  first ← restore_connection millis c
  rest ← restore_history millis history
  some (first ∷ rest)

module _ {Multiaddr : Type 0} where
  unfoldable pub store_peer : SerdeMillis → PeerData Multiaddr → StoredPeer Multiaddr
  store_peer millis d = record {
    connection_history = map (store_connection millis) d.connection_history;
    average_connection_duration = d.average_connection_duration;
    multiaddr = d.multiaddr;
  }

  unfoldable pub restore_peer : SerdeMillis → StoredPeer Multiaddr → Option (PeerData Multiaddr)
  restore_peer millis d = do
    history ← restore_history millis d.connection_history
    some (record {
      connection_history = history;
      average_connection_duration = d.average_connection_duration;
      multiaddr = d.multiaddr;
    })

module _ {PeerId Multiaddr : Type 0} where
  unfoldable pub store_peers :
      SerdeMillis → List (PeerId × PeerData Multiaddr) → List (PeerId × StoredPeer Multiaddr)
  store_peers millis [] = []
  store_peers millis ((p, d) ∷ peers) = (p, store_peer millis d) ∷ store_peers millis peers

  unfoldable pub restore_peers :
      SerdeMillis
      → List (PeerId × StoredPeer Multiaddr)
      → Option (List (PeerId × PeerData Multiaddr))
  restore_peers millis [] = some []
  restore_peers millis ((p, d) ∷ peers) = do
    first ← restore_peer millis d
    rest ← restore_peers millis peers
    some ((p, first) ∷ rest)
