-- ===== src/Discovery/Find.antt =====
-- discovery.rs: what the answers of discv5 make of the behaviour.
use cl_p2p_setup.Base.{
  ℕ, suc, ◌+◌, ◌-◌, ◌<◌, ◌≡◌, refl, sym, ◌∙◌, ap, inl, inr, ◌⊎◌, true, false, Option, none, some,
  List, [], ◌∷◌, ◌++◌, map, lt→ltb, ltb, ite, is_some, arith,
}
use cl_p2p_setup.Base.Lists.{All}
use cl_p2p_setup.Base.Swarm.{Result, ok, err, Poll, ready, pending}
use cl_p2p_setup.Base.Tables.{lookup, insert, lookup-insert}
use cl_p2p_setup.Base.Machine.{Outcome, returns, ◌>>=◌}
use cl_p2p_setup.Discovery.{
  Records, Discovery, Answers, poll_stream, address, find_peers, collect, get_peers, poll,
}

module _ (records : Records) (eq : Discrete records.PeerId)
    (add_enr : List records.Enr → records.Enr → List records.Enr) where
  open records use {Enr, PeerId, Multiaddr, as_peer_id}

  abbrev pub Peers : Type 0
  Peers = List (PeerId × Option Multiaddr)

  -- A record of `found` has the peer id `p` and the address `a`.
  abbrev pub IsFound : List Enr → PeerId → Option Multiaddr → Type 0
  IsFound found p a =
      (before : List Enr) × (enr : Enr) × (after : List Enr) × (found ≡ before ++ enr ∷ after)
      × (as_peer_id enr ≡ returns p)
      × (address records enr ≡ a)

  -- The key of the record decodes, and so there is a peer id of it.
  abbrev pub HasPeerId : Enr → Type 0
  HasPeerId enr = (p : PeerId) × (as_peer_id enr ≡ returns p)

  -- The peer id of the record is in the map.
  abbrev pub IsListed : Peers → Enr → Type 0
  IsListed peers enr =
      (p : PeerId) × (as_peer_id enr ≡ returns p) × (is_some (lookup eq p peers) ≡ true)

  abbrev later :
      (enr : Enr) (rest : List Enr) (p : PeerId) (a : Option Multiaddr)
      → IsFound rest p a
      → IsFound (enr ∷ rest) p a
  later enr rest p a (before, e, after, f, g, h) =
      (enr ∷ before, e, after, ap (λ l. enr ∷ l) f, g, h)

  -- A look-up in the map into which the address of `enr` was written, under its peer id `q`.
  inserted-IsFound :
      (enr : Enr) (rest : List Enr) (peers : Peers) (q p : PeerId) (a : Option Multiaddr)
      → as_peer_id enr ≡ returns q
      → lookup eq p (insert eq q (address records enr) peers) ≡ some a
      → IsFound (enr ∷ rest) p a ⊎ (lookup eq p peers ≡ some a)
  inserted-IsFound enr rest peers q p a e inserted =
      here (eq q p) (sym (lookup-insert eq q p (address records enr) peers) ∙ inserted)
    where
      value : Option (Option Multiaddr) → Option Multiaddr
      value none = none
      value (some x) = x

      here :
          (d : Dec (q ≡ p))
          → ite d (some (address records enr)) (lookup eq p peers) ≡ some a
          → IsFound (enr ∷ rest) p a ⊎ (lookup eq p peers ≡ some a)
      here (yes same) f = inl ([], enr, rest, refl, e ∙ ap returns same, ap value f)
      here (no n) f = inr f

  -- What the loop over records with peer ids makes of the map `peers`.
  record Collected (found discv5 : List Enr) (peers : Peers) : Type 0 where
    pub added : List Enr
    pub map : Peers
    pub result : collect records eq add_enr found discv5 peers ≡ returns (added, map)
    pub kept : (p : PeerId) → is_some (lookup eq p peers) ≡ true → is_some (lookup eq p map) ≡ true
    pub listed : All (IsListed map) found
    pub found_before :
        (p : PeerId) (a : Option Multiaddr)
        → lookup eq p map ≡ some a
        → IsFound found p a ⊎ (lookup eq p peers ≡ some a)

  collect-Collected :
      (found discv5 : List Enr) (peers : Peers) → All HasPeerId found → Collected found discv5 peers
  unfolding collect
  collect-Collected [] discv5 peers ids = record {
    added = discv5;
    map = peers;
    result = refl;
    kept = λ p h. h;
    listed = tt;
    found_before = λ p a h. inr h;
  }
  collect-Collected (enr ∷ rest) discv5 peers ((q, id), ids) =
      let peers' = insert eq q (address records enr) peers in
      let more = collect-Collected rest (add_enr discv5 enr) peers' ids in
      record {
        added = more.added;
        map = more.map;
        result = rw (id, more.result, collect) refl;
        kept =
            λ p h. more.kept p (ground (arith, lookup-insert eq q p (address records enr) peers));
        listed = (
          (q, id, more.kept q (ground (arith, lookup-insert eq q q (address records enr) peers))),
          more.listed,
        );
        found_before = λ p a h. elim (more.found_before p a h) [
          | inl found ↦ inl (later enr rest p a found)
          | inr inserted ↦ inserted-IsFound enr rest peers q p a id inserted
        ];
      }

  -- The results of a call: queries that failed, and one that did not.
  abbrev pub failures :
      ℕ → List (Result (List Enr) (Unit {0})) → List (Result (List Enr) (Unit {0}))
  failures Prim.Native.Nat.zero rest = rest
  failures (suc n) rest = err tt ∷ failures n rest

  get_peers-found :
      (n : ℕ) (found : List Enr) (rest : List (Result (List Enr) (Unit {0}))) (s : Discovery Enr)
      → (c : Collected found s.discv5 [])
      → get_peers records eq add_enr (failures n (ok found ∷ rest)) s
        ≡ returns (record s { peers_future = 0; discv5 = c.added }, some c.map)
  unfolding get_peers
  get_peers-found Prim.Native.Nat.zero found rest s c = rw (c.result, get_peers) refl
  get_peers-found (suc n) found rest s c =
      get_peers-found n found rest (record s { peers_future = s.peers_future - 1 })
        (record {
          added = c.added;
          map = c.map;
          result = c.result;
          kept = c.kept;
          listed = c.listed;
          found_before = c.found_before;
        })

  -- When there are no peers to look for, and of the queries that are answered the first that did not
  -- fail has found `found`, records whose keys decode to peer ids, then `poll` reports a map of peers
  -- and has no query left: the map has each record of `found`, and each of its entries is the peer id
  -- and the address of one.
  pub poll-found :
      (n : ℕ) (found : List Enr) (rest : List (Result (List Enr) (Unit {0})))
      (stream : Poll (Result (Unit {0}) (Unit {0}))) (s : Discovery Enr)
      → All HasPeerId found
      → s.peers_to_discover ≡ 0
      → (s' : Discovery Enr) × (peers : Peers) × (poll records eq add_enr
            (record { results = failures n (ok found ∷ rest); stream = stream })
            s
          ≡ returns (s', ready peers))
        × (s'.peers_future ≡ 0)
        × All (IsListed peers) found
        × ((p : PeerId) (a : Option Multiaddr) → lookup eq p peers ≡ some a → IsFound found p a)
  unfolding poll lookup
  poll-found n found rest stream s ids e =
      let idle : ltb 0 s.peers_to_discover ≡ false = ground arith in
      let c = collect-Collected found s.discv5 [] ids in
      (
        record s { peers_future = 0; discv5 = c.added },
        c.map,
        rw (idle, get_peers-found n found rest s c) refl,
        refl,
        c.listed,
        λ p a h. elim (c.found_before p a h) [ inl f ↦ f | inr f ↦ nothing p a f ],
      )
    where
      nothing : (p : PeerId) (a : Option Multiaddr) → lookup eq p [] ≡ some a → IsFound found p a
      nothing p a f = cc

  get_peers-failed :
      (n : ℕ) (s : Discovery Enr)
      → (s' : Discovery Enr) × (get_peers records eq add_enr (failures n []) s ≡ returns (s', none))
        × (s'.peers_to_discover ≡ s.peers_to_discover)
  unfolding get_peers
  get_peers-failed Prim.Native.Nat.zero s = (s, refl, refl)
  get_peers-failed (suc n) s = get_peers-failed n (record s { peers_future = s.peers_future - 1 })

  -- Successive calls of `poll`, in each of which as many queries have failed as the list says, and no
  -- other has an answer.
  unfoldable pub polls :
      List (ℕ × Poll (Result (Unit {0}) (Unit {0})))
      → Discovery Enr
      → Outcome (Discovery Enr × List (Poll Peers))
  polls [] s = returns (s, [])
  polls ((n, stream) ∷ more) s = do
    (s', answer) ← poll records eq add_enr (record { results = failures n []; stream = stream }) s
    (s'', answers) ← polls more s'
    returns (s'', answer ∷ answers)

  pub poll-failed :
      (n : ℕ) (stream : Poll (Result (Unit {0}) (Unit {0}))) (s : Discovery Enr)
      → s.peers_to_discover ≡ 0
      → (s' : Discovery Enr) × (poll records eq add_enr
            (record { results = failures n []; stream = stream })
            s
          ≡ returns (s', pending))
        × (s'.peers_to_discover ≡ 0)
  unfolding poll
  poll-failed n stream s e =
      let (s', f, g) = get_peers-failed n s in
      let idle : ltb 0 s.peers_to_discover ≡ false = ground arith in
      (record s' { event_stream = poll_stream stream s'.event_stream }, rw (idle, f) refl, g ∙ e)

  -- Where all queries fail, however many and whenever, `poll` reports nothing: with no new peers to
  -- look for, every call of it is pending.
  pub polls-failed :
      (answers : List (ℕ × Poll (Result (Unit {0}) (Unit {0})))) (s : Discovery Enr)
      → s.peers_to_discover ≡ 0
      → (s' : Discovery Enr) × (polls answers s ≡ returns (s', map (λ a. pending) answers))
        × (s'.peers_to_discover ≡ 0)
  unfolding polls
  polls-failed [] s e = (s, refl, e)
  polls-failed ((n, stream) ∷ more) s e =
      let (s', f, g) = poll-failed n stream s e in
      let (s'', h, k) = polls-failed more s' g in (s'', rw (f, polls, h) refl, k)

  -- With a fork id in the node's own record, a call of `poll` with peers to look for starts one query
  -- and forgets the number, and whatever it was given of failed queries is left for later calls.
  pub poll-starts :
      (digest : records.Digest) (answers : Answers Enr) (s : Discovery Enr)
      → records.fork_digest s.enr ≡ some digest
      → 0 < s.peers_to_discover
      → poll records eq add_enr answers s
        ≡ returns (
          record s { peers_future = s.peers_future + 1; peers_to_discover = 0; started = true },
          pending,
        )
  unfolding poll find_peers
  poll-starts digest answers s e lt = rw (lt→ltb 0 s.peers_to_discover lt, e, find_peers) refl
