-- ===== src/Discovery.antt =====
-- discovery.rs: the behaviour that finds peers with discv5. A call of `poll` is given what the futures
-- and the event stream of discv5 answer to it.
pub mod Find
pub mod Setup
pub mod Tests
use cl_p2p_setup.Base.{
  ℕ, suc, ◌+◌, ◌-◌, Bool, true, false, ◌&&◌, Option, none, some, List, [], ◌∷◌, ltb, if◌then◌else◌,
  is_some, ite,
}
use cl_p2p_setup.Base.Swarm.{Result, ok, err, Poll, ready, pending}
use cl_p2p_setup.Base.Tables.{insert}
use cl_p2p_setup.Base.Machine.{Outcome, returns, panics, ◌>>=◌}

-- What is read of a node record: the digest of its fork id, `none` where `fork_id` fails, its peer id,
-- which may panic, and its address. `multiaddr` joins an address and a port.
pub record Records : Type 1 where
  pub Enr : Type 0
  pub PeerId : Type 0
  pub Digest : Type 0
  pub Ip : Type 0
  pub Multiaddr : Type 0
  pub fork_digest : Enr → Option Digest
  pub as_peer_id : Enr → Outcome PeerId
  pub ip4 : Enr → Option Ip
  pub tcp4 : Enr → Option ℕ
  pub multiaddr : Ip → ℕ → Multiaddr

pub data EventStream : Type 0 where
  present in_active awaiting : EventStream

-- `discv5` holds the records that were added to it; `peers_future` is the number of queries that are
-- not answered.
pub record Discovery (Enr : Type 0) : Type 0 where
  pub discv5 : List Enr
  pub enr : Enr
  pub event_stream : EventStream
  pub peers_future : ℕ
  pub peers_to_discover : ℕ
  pub started : Bool

-- What discv5 answers in one call: the results of queries, one for each future that is ready, in the
-- order in which they are ready; and, while the event stream is awaited, whether it is there.
pub record Answers (Enr : Type 0) : Type 0 where
  pub results : List (Result (List Enr) (Unit {0}))
  pub stream : Poll (Result (Unit {0}) (Unit {0}))

-- The part of `poll` about the event stream. The events themselves are dropped.
unfoldable pub poll_stream : Poll (Result (Unit {0}) (Unit {0})) → EventStream → EventStream
poll_stream pending awaiting = awaiting
poll_stream (ready (ok stream)) awaiting = present
poll_stream (ready (err e)) awaiting = in_active
poll_stream _ in_active = in_active
poll_stream _ present = present

module _ {Enr : Type 0} where
  unfoldable pub set_peers_to_discover : Discovery Enr → ℕ → Discovery Enr
  set_peers_to_discover s count = record s { peers_to_discover = count }

  -- `new`, with the record of the node and discv5 as it was set up with the boot nodes.
  unfoldable pub new : Enr → List Enr → Discovery Enr
  new local_enr bootnodes = record {
    discv5 = bootnodes;
    enr = local_enr;
    event_stream = awaiting;
    peers_future = 0;
    peers_to_discover = 0;
    started = false;
  }

module _ (records : Records) where
  open records use {Enr, PeerId, Multiaddr, fork_digest, as_peer_id, ip4, tcp4, multiaddr}

  -- The address of a discovered peer.
  unfoldable pub address : Enr → Option Multiaddr
  address enr = elim (ip4 enr) [
    | none ↦ none
    | some ip ↦ elim (tcp4 enr) [ none ↦ none | some port ↦ some (multiaddr ip port) ]
  ]

  -- The predicate of a query: the same fork digest, and a port.
  unfoldable pub is_wanted : Discrete records.Digest → records.Digest → Enr → Bool
  is_wanted eq digest enr = elim (fork_digest enr) [
    | none ↦ false
    | some other ↦ ite (eq other digest) (is_some (tcp4 enr)) false
  ]

  -- A query for `count` nodes is started. It panics where the record of the node has no fork id.
  unfoldable pub find_peers : Discovery Enr → ℕ → Outcome (Discovery Enr)
  find_peers s count = elim (fork_digest s.enr) [
    | none ↦ panics
    | some digest ↦ returns (record s { peers_future = s.peers_future + 1 })
  ]

  module _ (eq : Discrete PeerId) (add_enr : List Enr → Enr → List Enr) where
    -- The loop over the records that a query has found.
    unfoldable pub collect :
        List Enr
        → List Enr
        → List (PeerId × Option Multiaddr)
        → Outcome (List Enr × List (PeerId × Option Multiaddr))
    collect [] discv5 peers = returns (discv5, peers)
    collect (enr ∷ rest) discv5 peers =
        let added = add_enr discv5 enr in
        as_peer_id enr >>= λ peer_id. collect rest added (insert eq peer_id (address enr) peers)

    -- `while let Poll::Ready(Some(res)) = self.peers_future.poll_next_unpin(cx)`. A query that failed
    -- is dropped; with the first that did not, all others are.
    unfoldable pub get_peers :
        List (Result (List Enr) (Unit {0}))
        → Discovery Enr
        → Outcome (Discovery Enr × Option (List (PeerId × Option Multiaddr)))
    get_peers [] s = returns (s, none)
    get_peers (err e ∷ rest) s = get_peers rest (record s { peers_future = s.peers_future - 1 })
    get_peers (ok found ∷ rest) s = collect found s.discv5 [] >>= λ (discv5, peers).
        returns (record s { peers_future = 0; discv5 = discv5 }, some peers)

    unfoldable pub poll :
        Answers Enr
        → Discovery Enr
        → Outcome (Discovery Enr × Poll (List (PeerId × Option Multiaddr)))
    poll answers s =
        if ltb 0 s.peers_to_discover
        then (find_peers (record s { started = true }) s.peers_to_discover >>= λ s'.
            returns (record s' { peers_to_discover = 0 }, pending))
        else (get_peers answers.results s >>= λ (s', found). elim found [
          | some peers ↦ returns (s', ready peers)
          | none ↦
              returns
                (record s' { event_stream = poll_stream answers.stream s'.event_stream }, pending)
        ])
