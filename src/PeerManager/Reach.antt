-- ===== src/PeerManager/Reach.antt =====
-- peer_manager.rs: the histories of a manager, from its start on, in a build without overflow checks.
use cl_p2p_setup.Base.{
  ℕ, ◌<◌, ◌≡◌, refl, subst, Option, none, some, String, List, [], ◌∷◌, arith, inl, inr, is_empty,
  Bool-cases, ltb, ◌-◌, ◌+◌, ◌%◌, not, ◌&&◌, Option-cases, dec_lt,
}
use cl_p2p_setup.Base.Swarm.{Poll, pending}
use cl_p2p_setup.Base.Tables.{lookup, contains, insert, add, lookup-insert, contains_of_add}
use cl_p2p_setup.Base.Machine.{Outcome, returns, panics, returns-injective, wrapping, u32_mod}
use cl_p2p_setup.PeerManager.{
  PeerData, PeerManager, PeerManagerEvent, FromSwarm, Instant, new, new_peer_data, on_swarm_event,
  add_each, add_peers, add_peer_identity,
}
use cl_p2p_setup.PeerManager.Stored.{SerdeMillis, StoredPeer, restore_peers}
use cl_p2p_setup.PeerManager.Poll.{Tick, beat, beats, poll, load_peer_data}
use cl_p2p_setup.PeerManager.Invariant.{IsConsistent, new-IsConsistent, on_swarm_event-IsConsistent}
use cl_p2p_setup.PeerManager.Start.{timeout_dialling_peers-IsConsistent}
use cl_p2p_setup.PeerManager.Heartbeat.{Beats, rests, requests, beat-missing, busy_peers}

module _ {PeerId Multiaddr IdentifyInfo : Type 0} (eq : Discrete PeerId) where
  add_new-IsConsistent :
      (s : PeerManager PeerId Multiaddr IdentifyInfo) (p : PeerId) (address : Option Multiaddr)
      → lookup eq p s.peer_data ≡ none
      → IsConsistent eq s
      → IsConsistent eq (record s {
        peer_data = insert eq p (new_peer_data address) s.peer_data;
        new_peers = add eq p s.new_peers;
      })
  add_new-IsConsistent s p address e v = record {
    in_range = v.in_range;
    known = λ j h. ground (
      arith,
      v.known j,
      contains_of_add eq p j s.new_peers h,
      lookup-insert eq p j (new_peer_data address) s.peer_data,
    );
    dialled = λ j h.
        ground (arith, e, v.dialled j h, lookup-insert eq p j (new_peer_data address) s.peer_data);
    linked = λ j h.
        ground (arith, e, v.linked j h, lookup-insert eq p j (new_peer_data address) s.peer_data);
  }

  add_each-IsConsistent :
      (peers : List (PeerId × Option Multiaddr)) (s : PeerManager PeerId Multiaddr IdentifyInfo)
      → IsConsistent eq s
      → IsConsistent eq (add_each eq peers s)
  unfolding add_each
  add_each-IsConsistent [] s v = v
  add_each-IsConsistent ((p, address) ∷ peers) s v = elim (Option-cases (lookup eq p s.peer_data)) [
    | inl e ↦ rw e (add_each-IsConsistent peers _ (add_new-IsConsistent s p address e v))
    | inr (d, e) ↦ rw e (add_each-IsConsistent peers s v)
  ]

  pub add_peers-IsConsistent :
      (s : PeerManager PeerId Multiaddr IdentifyInfo) (peers : List (PeerId × Option Multiaddr))
      → IsConsistent eq s
      → IsConsistent eq (add_peers eq s peers)
  unfolding add_peers
  add_peers-IsConsistent s peers v =
      let c = add_each-IsConsistent peers s v in
      record { in_range = c.in_range; known = c.known; dialled = c.dialled; linked = c.linked }

  -- A poll that returns, in a consistent state.
  pub record HasPolled
      (r : Outcome (PeerManager PeerId Multiaddr IdentifyInfo × Poll (PeerManagerEvent PeerId)))
      : Type 0 where
    pub state : PeerManager PeerId Multiaddr IdentifyInfo
    pub answer : Poll (PeerManagerEvent PeerId)
    pub result : r ≡ returns (state, answer)
    pub consistent : IsConsistent eq state

  beat_wrapping :
      (s : PeerManager PeerId Multiaddr IdentifyInfo) (tick : Tick)
      → IsConsistent eq s
      → (missing : ℕ) × Beats eq s tick missing (beat eq wrapping s tick)
  beat_wrapping s tick v =
      let count = busy_peers eq s tick % u32_mod in
      let range = v.in_range in
      elim (dec_lt s.target_peer_number count) [
        | yes h ↦ (
          (s.target_peer_number + u32_mod - count) % u32_mod,
          beat-missing eq wrapping s tick _ (omega arith) (ground arith) v,
        )
        | no h ↦ (
          s.target_peer_number - count,
          beat-missing eq wrapping s tick _ (omega arith) (ground arith) v,
        )
      ]

  beats-HasPolled :
      (ticks : List Tick) (s : PeerManager PeerId Multiaddr IdentifyInfo)
      → IsConsistent eq s
      → HasPolled (beats eq wrapping ticks s)
  unfolding beats
  beats-HasPolled [] s v = record { state = s; answer = pending; result = refl; consistent = v }
  beats-HasPolled (tick ∷ ticks) s v =
      let (missing, beaten) = beat_wrapping s tick v in
      elim beaten [
        | rests _ e ↦
            rw e (beats-HasPolled ticks _ (timeout_dialling_peers-IsConsistent eq s tick.now v))
        | requests _ r ↦ elim (Bool-cases (is_empty r.peers)) [
          | inl none_found ↦ rw r.result (rw none_found (beats-HasPolled ticks _ r.consistent))
          | inr found ↦ rw r.result (
              rw found
                (record { state = r.state; answer = _; result = refl; consistent = r.consistent }))
        ]
      ]

  pub poll-HasPolled :
      (ticks : List Tick) (s : PeerManager PeerId Multiaddr IdentifyInfo)
      → IsConsistent eq s
      → HasPolled (poll eq wrapping ticks s)
  unfolding poll
  poll-HasPolled ticks s v =
      elim (Bool-cases (not s.waiting_for_peer_discovery && ltb 0 s.peers_to_discover)) [
        | inl e ↦ rw e (record {
          state = _;
          answer = _;
          result = refl;
          consistent = record {
            in_range = v.in_range;
            known = v.known;
            dialled = v.dialled;
            linked = v.linked;
          };
        })
        | inr e ↦ rw e (beats-HasPolled ticks s v)
      ]

  fresh-IsConsistent :
      (target : ℕ) (peers : List (PeerId × PeerData Multiaddr))
      → target < u32_mod
      → IsConsistent eq (record (new {IdentifyInfo = IdentifyInfo} target) { peer_data = peers })
  unfolding new contains
  fresh-IsConsistent target peers h = record {
    in_range = h;
    known = λ p h. cc;
    dialled = λ p h. cc;
    linked = λ p h. cc;
  }

  -- What happens to a manager, as long as no handler panics.
  pub data Step (s : PeerManager PeerId Multiaddr IdentifyInfo)
      : PeerManager PeerId Multiaddr IdentifyInfo → Type 0 where
    swarms :
        (event : FromSwarm PeerId) (now : Instant) {t : PeerManager PeerId Multiaddr IdentifyInfo}
        → on_swarm_event eq wrapping s event now ≡ returns t
        → Step s t
    polls :
        (ticks : List Tick) {t : PeerManager PeerId Multiaddr IdentifyInfo}
        {answer : Poll (PeerManagerEvent PeerId)}
        → poll eq wrapping ticks s ≡ returns (t, answer)
        → Step s t
    discovers : (peers : List (PeerId × Option Multiaddr)) → Step s (add_peers eq s peers)
    identifies : (p : PeerId) (info : IdentifyInfo) → Step s (add_peer_identity eq s p info)

  pub data Reach (target : ℕ) : PeerManager PeerId Multiaddr IdentifyInfo → Type 0 where
    start : Reach target (new target)
    next :
        {s t : PeerManager PeerId Multiaddr IdentifyInfo}
        → Reach target s
        → Step s t
        → Reach target t

  pub Step-IsConsistent :
      {s t : PeerManager PeerId Multiaddr IdentifyInfo}
      → Step s t
      → IsConsistent eq s
      → IsConsistent eq t
  unfolding add_peer_identity
  Step-IsConsistent {s} (swarms event now h) v =
      on_swarm_event-IsConsistent eq wrapping s event now h v
  Step-IsConsistent {s} (polls ticks h) v =
      let p = poll-HasPolled ticks s v in
      subst (IsConsistent eq) (ground (arith, h, p.result)) p.consistent
  Step-IsConsistent {s} (discovers peers) v = add_peers-IsConsistent s peers v
  Step-IsConsistent (identifies p info) v = record {
    in_range = v.in_range;
    known = v.known;
    dialled = v.dialled;
    linked = v.linked;
  }

  -- Whatever a new manager loads, its sets are empty.
  pub load_peer_data-IsConsistent :
      (target : ℕ) (s : PeerManager PeerId Multiaddr IdentifyInfo) (millis : SerdeMillis)
      (deserialize : String → Option (List (PeerId × StoredPeer Multiaddr)))
      (file : Option (Option String))
      → target < u32_mod
      → load_peer_data millis deserialize file (new target) ≡ returns s
      → IsConsistent eq s
  unfolding load_peer_data
  load_peer_data-IsConsistent target s millis deserialize none range h =
      subst (IsConsistent eq) (returns-injective h) (new-IsConsistent eq target range)
  load_peer_data-IsConsistent target s millis deserialize (some none) range h = cc
  load_peer_data-IsConsistent target s millis deserialize (some (some contents)) range h =
      by_stored (deserialize contents) h
    where
      by_restored :
          (restored : Option (List (PeerId × PeerData Multiaddr)))
          → elim restored as (λ x. Outcome (PeerManager PeerId Multiaddr IdentifyInfo)) [
            | none ↦ panics
            | some peers ↦ returns (record (new target) { peer_data = peers })
          ]
            ≡ returns s
          → IsConsistent eq s
      by_restored none h = cc
      by_restored (some peers) h =
          subst (IsConsistent eq) (returns-injective h) (fresh-IsConsistent target peers range)

      by_stored :
          (stored : Option (List (PeerId × StoredPeer Multiaddr)))
          → elim stored as (λ x. Outcome (PeerManager PeerId Multiaddr IdentifyInfo)) [
            | none ↦ panics
            | some written ↦ elim (restore_peers millis written) [
              | none ↦ panics
              | some peers ↦ returns (record (new target) { peer_data = peers })
            ]
          ]
            ≡ returns s
          → IsConsistent eq s
      by_stored none h = cc
      by_stored (some written) h = by_restored (restore_peers millis written) h

  pub Reach-IsConsistent :
      {target : ℕ} {s : PeerManager PeerId Multiaddr IdentifyInfo}
      → target < u32_mod
      → Reach target s
      → IsConsistent eq s
  Reach-IsConsistent h start = new-IsConsistent eq _ h
  Reach-IsConsistent h (next r st) = Step-IsConsistent st (Reach-IsConsistent h r)

  -- After any history of a new manager, in a build without overflow checks, with discovered peers,
  -- identities, polls, and swarm events that are handled without a panic, a poll does not panic,
  -- whatever ticks are ready, and leaves the tables consistent.
  pub Reach-HasPolled :
      {target : ℕ} {s : PeerManager PeerId Multiaddr IdentifyInfo} (ticks : List Tick)
      → target < u32_mod
      → Reach target s
      → HasPolled (poll eq wrapping ticks s)
  Reach-HasPolled {s = s} ticks h r = poll-HasPolled ticks s (Reach-IsConsistent h r)
