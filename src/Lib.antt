-- ===== src/Lib.antt =====
-- A model of a consensus layer peer-to-peer node, and theorems about it.
--
-- The node joins the gossip, request/response and discovery protocols of the consensus layer. Its
-- parts are behaviours that libp2p's swarm polls and feeds with events: the peer manager chooses
-- which peers to dial, discovery finds peers for it, the RPC behaviour runs one handler for each
-- connection, and the main loop passes events between them.
--
-- What is modelled, by file:
--   Base and its children: shared names, tests, lists, hash tables (Base/Tables), code that may
--     panic with the machine integers (Base/Machine), and the answers of a poll (Base/Swarm).
--   PeerManager: src/peer_manager.rs. PeerManager.antt has the data and the handlers of swarm
--     events, Dialling the choice of peers and the timeouts of dials, Poll the heartbeat, `poll`, and
--     the saving and loading of the peer data, and Stored the form in which they are stored. The
--     other children hold proofs: Timeouts, Average, Redial, Invariant, Start, Safety, Heartbeat,
--     Reach, Discover, Waiting, Saved; Tests has small managers and the theorems at them, and
--     Saved/Tests a manager that is saved and loaded.
--   Rpc/Methods: src/rpc/methods.rs. Rpc/Protocol, Rpc/Inbound, Rpc/Outbound: src/rpc/protocol.rs,
--     the protocol names and limits, the requests of other nodes, and those of this node.
--   Rpc/Handler: src/rpc/handler.rs. Handler.antt has the state, Inject the calls of the swarm, Poll
--     the parts of `poll` before and behind the streams, InboundStreams and OutboundStreams its two
--     loops over the streams, Turn the whole call. The other children hold proofs. Timers has what is
--     relied on of the delay queue, and Table a map whose entries all satisfy a statement.
--     InboundSafety, InboundLoop, OutboundSafety, OutboundLoop, TimersDue, DialsKept, Polled and
--     PollSafety follow `poll`; Dials, Invariant, Negotiated, NegotiatedOut and DialErrors the other
--     calls; Calls has the calls in any order, and Reach what holds after them. Rounds is about the
--     loops over the timers, Events and Closing about pending events, responses and the shutdown.
--     Slab is a delay queue to run a handler on, Runs has runs, and Tests the theorems at them.
--   Rpc/Behaviour: src/rpc/mod.rs, the queue between the application and the handlers; Order has its
--     proofs, and Tests calls on it.
--   Rpc/Codec: src/rpc/codec. Codec.antt has the libraries that it stands on, SszSnappy the codecs of
--     ssz_snappy.rs, Base those of base.rs and mod.rs. Laws has what is relied on of the libraries; the
--     proofs are in Payload, RoundTrip, Responses and Items (what is read of responses) and Inbound (what
--     is read of requests). Tests has libraries that leave bytes as they are, and the theorems there.
--   Chain: src/chain.rs, fork ids and digests, with constants of src/config.rs. Enr: src/enr.rs, the
--     node's record, and the fork id and the peer id of a record; OwnRecord has the proofs.
--   Discovery: src/discovery.rs, with what discv5 answers as an argument; Setup has `new`, Find the
--     proofs about queries, and Tests small records.
--   Gossip: the gossip part of src/main.rs, the snappy transform and the message ids; Transform and
--     MessageId have the proofs.
--   Node: the rest of src/main.rs. Node.antt has the behaviours together and what the loop does with an
--     event, Rounds the swarm's rounds, and Main the loop and the start and end of the node. The proofs
--     are in Kept, Managed and Aside (the peer manager through rounds), Replies (requests and
--     responses), Search (the search for peers, from the manager through discovery and back) and
--     Waiting (a search that finds nothing). Tests has a small node, Search/Tests a search in it, and
--     Main/Tests a node that ends.
--
-- How the code is read. A method returns the new state. A failed unwrap or expect, a panic! and,
-- in a build that checks for overflow, an overflow is the outcome `panics`; in the other build the
-- result wraps around. usize has 64 bits. A hash map or set is a list in the order in which it
-- iterates, and the theorems hold for any list. An instant is a count of nanoseconds, and each
-- reading of the clock is an argument. Peer ids, addresses and identities are types that the
-- sections take as parameters, peer ids with a decision of equality.
--
-- Loops are recursions on the collection. The loop over the expired timers of a delay queue takes
-- as many rounds as the queue has entries, and one more: each round takes an entry out.
--
-- How the parts interact. The swarm polls each behaviour. An event of discovery or identify goes to the
-- peer manager, an event of the manager to discovery or gossipsub, and a request that a handler reports
-- to the RPC behaviour, as a reply. Node/Rounds composes the functions of the other files in this way:
-- the rounds are a list, and a theorem for any list holds in whatever order the swarm proceeds. A
-- handler's streams are read and written by the codecs; the handler is given what they end in, and
-- Rpc/Codec/Inbound joins the two at the upgrade of an inbound stream.
--
-- Not modelled: logging, which has no effect on the state; the boot nodes and times of src/config.rs,
-- which only libraries read; and in src/main.rs the transport, the noise and yamux keys and the
-- configuration of gossipsub, which are calls of libraries; and in src/discovery.rs the configuration of
-- discv5, which is part of the argument that says whether discv5 is made. libp2p, tokio, serde, SSZ,
-- snappy, SHA-256, discv5 and its node records are not part of the repository: where the code uses them
-- they are arguments, and records of laws (Rpc/Codec/Laws, Gossip/Transform, Enr/OwnRecord) say what is
-- relied on of them. What serde_millis makes of an instant is one function for all of a save, and
-- another for a load, though it reads the clock for each.
pub mod Base
pub mod PeerManager
pub mod Rpc
pub mod Chain
pub mod Enr
pub mod Discovery
pub mod Gossip
pub mod Node
