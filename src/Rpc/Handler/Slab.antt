-- ===== src/Rpc/Handler/Slab.antt =====
-- A delay queue to run the handler on: a slab of slots, in which a key is a position.
use cl_p2p_setup.Base.{
  ℕ, zero, suc, ◌+◌, ◌<◌, ◌≡◌, ◌≢◌, refl, Bool, true, false, Option, none, some, List, [], ◌∷◌,
  ◌++◌, length, leb, if◌then◌else◌, subst, arith,
}
use cl_p2p_setup.Base.Machine.{Outcome, returns, panics, ◌>>=◌}
use cl_p2p_setup.Rpc.Handler.{SubstreamId, DelayQueue, Expiry, expired, nothing_due, nanos}
use cl_p2p_setup.Rpc.Handler.Timers.{Laws}

-- A slot is free, or has a value and the time at which it is due.
abbrev pub Slots : Type 0
Slots = List (Option (SubstreamId × ℕ))

abbrev value : Option (SubstreamId × ℕ) → Option SubstreamId
value none = none
value (some (id, due)) = some id

unfoldable pub find : Slots → ℕ → Option SubstreamId
find [] k = none
find (s ∷ q) zero = value s
find (s ∷ q) (suc k) = find q k

unfoldable pub free : Slots → ℕ → Outcome Slots
free [] k = panics
free (none ∷ q) zero = panics
free (some e ∷ q) zero = returns (none ∷ q)
free (s ∷ q) (suc k) = free q k >>= λ q'. returns (s ∷ q')

unfoldable pub delay : ℕ → Slots → ℕ → Outcome Slots
delay due [] k = panics
delay due (none ∷ q) zero = panics
delay due (some (id, old) ∷ q) zero = returns (some (id, due) ∷ q)
delay due (s ∷ q) (suc k) = delay due q k >>= λ q'. returns (s ∷ q')

unfoldable pub expire : ℕ → Slots → Slots × Expiry
expire now [] = ([], nothing_due)
expire now (none ∷ q) = let (q', x) = expire now q in (none ∷ q', x)
expire now (some (id, due) ∷ q) =
    let (q', x) = expire now q in
    if leb due now then (none ∷ q, expired id) else (some (id, due) ∷ q', x)

unfoldable pub used : Slots → ℕ
used [] = 0
used (none ∷ q) = used q
used (some e ∷ q) = suc (used q)

abbrev pub slab : DelayQueue
slab = record {
  Queue = Slots;
  Key = ℕ;
  empty = [];
  insert_at = λ now q id secs. (q ++ some (id, now + nanos secs) ∷ [], length q);
  reset = λ now q k secs. delay (now + nanos secs) q k;
  remove_key = free;
  poll_expired = expire;
  entries = used;
}

inserted : (q : Slots) (id due : ℕ) → find (q ++ some (id, due) ∷ []) (length q) ≡ some id
unfolding find
inserted [] id due = refl
inserted (s ∷ q) id due = inserted q id due

insert_keeps :
    (q : Slots) (e : Option (SubstreamId × ℕ)) (k j : ℕ)
    → find q k ≡ some j
    → find (q ++ e ∷ []) k ≡ some j
unfolding find
insert_keeps [] e k j h = cc
insert_keeps (s ∷ q) e zero j h = h
insert_keeps (s ∷ q) e (suc k) j h = insert_keeps q e k j h

free_keeps :
    (q : Slots) (k i : ℕ)
    → find q k ≡ some i
    → (q' : Slots) × (free q k ≡ returns q')
      × ((k' j : ℕ) → find q k' ≡ some j → j ≢ i → find q' k' ≡ some j)
unfolding find free
free_keeps [] k i h = cc
free_keeps (none ∷ q) zero i h = cc
free_keeps (some (id, due) ∷ q) zero i h = (none ∷ q, refl, kept)
  where
    kept : (k' j : ℕ) → find (some (id, due) ∷ q) k' ≡ some j → j ≢ i → find (none ∷ q) k' ≡ some j
    kept zero j f ne = absurd (ne cc)
    kept (suc k') j f ne = f
free_keeps (t ∷ q) (suc k) i h =
    let (q', e, kept) = free_keeps q k i h in (t ∷ q', step t e, behind t q' kept)
  where
    step :
        (t : Option (SubstreamId × ℕ)) {q' : Slots}
        → free q k ≡ returns q'
        → free (t ∷ q) (suc k) ≡ returns (t ∷ q')
    step none e = rw e refl
    step (some x) e = rw e refl

    behind :
        (t : Option (SubstreamId × ℕ)) (q' : Slots)
        → ((k' j : ℕ) → find q k' ≡ some j → j ≢ i → find q' k' ≡ some j)
        → (k' j : ℕ) → find (t ∷ q) k' ≡ some j
        → j ≢ i
        → find (t ∷ q') k' ≡ some j
    behind t q' kept zero j f ne = f
    behind t q' kept (suc k') j f ne = kept k' j f ne

delay_keeps :
    (due : ℕ) (q : Slots) (k i : ℕ)
    → find q k ≡ some i
    → (q' : Slots) × (delay due q k ≡ returns q')
      × ((k' j : ℕ) → find q k' ≡ some j → find q' k' ≡ some j)
unfolding find delay
delay_keeps due [] k i h = cc
delay_keeps due (none ∷ q) zero i h = cc
delay_keeps due (some (id, old) ∷ q) zero i h = (some (id, due) ∷ q, refl, kept)
  where
    kept :
        (k' j : ℕ) → find (some (id, old) ∷ q) k' ≡ some j → find (some (id, due) ∷ q) k' ≡ some j
    kept zero j f = f
    kept (suc k') j f = f
delay_keeps due (t ∷ q) (suc k) i h =
    let (q', e, kept) = delay_keeps due q k i h in (t ∷ q', step t e, behind t q' kept)
  where
    step :
        (t : Option (SubstreamId × ℕ)) {q' : Slots}
        → delay due q k ≡ returns q'
        → delay due (t ∷ q) (suc k) ≡ returns (t ∷ q')
    step none e = rw e refl
    step (some x) e = rw e refl

    behind :
        (t : Option (SubstreamId × ℕ)) (q' : Slots)
        → ((k' j : ℕ) → find q k' ≡ some j → find q' k' ≡ some j)
        → (k' j : ℕ) → find (t ∷ q) k' ≡ some j
        → find (t ∷ q') k' ≡ some j
    behind t q' kept zero j f = f
    behind t q' kept (suc k') j f = kept k' j f

expire_keeps :
    (now : ℕ) (q : Slots) (k j : ℕ)
    → find q k ≡ some j
    → (expire now q).1 ≢ expired j
    → find (expire now q).0 k ≡ some j
unfolding find expire
expire_keeps now [] k j h ne = cc
expire_keeps now (none ∷ q) zero j h ne = h
expire_keeps now (none ∷ q) (suc k) j h ne = expire_keeps now q k j h ne
expire_keeps now (some (id, due) ∷ q) k j h ne =
    at_slot (leb due now) k h ne (λ k'. expire_keeps now q k' j)
  where
    after : Bool → Slots × Expiry
    after b =
        if b then (none ∷ q, expired id) else (some (id, due) ∷ (expire now q).0, (expire now q).1)

    found : some id ≡ some j → id ≡ j
    found e = cc

    at_slot :
        (b : Bool) (k : ℕ)
        → find (some (id, due) ∷ q) k ≡ some j
        → (after b).1 ≢ expired j
        → ((k' : ℕ)
            → find q k' ≡ some j
            → (expire now q).1 ≢ expired j
            → find (expire now q).0 k' ≡ some j)
        → find (after b).0 k ≡ some j
    at_slot true zero h ne ih = absurd (ne (subst (λ x. expired id ≡ expired x) (found h) refl))
    at_slot true (suc k) h ne ih = h
    at_slot false zero h ne ih = h
    at_slot false (suc k) h ne ih = ih k h ne

expire_shrinks :
    (now : ℕ) (q : Slots) (i : ℕ) → (expire now q).1 ≡ expired i → used (expire now q).0 < used q
unfolding expire used
expire_shrinks now [] i h = cc
expire_shrinks now (none ∷ q) i h = expire_shrinks now q i h
expire_shrinks now (some (id, due) ∷ q) i h = at_slot (leb due now) h (expire_shrinks now q i)
  where
    after : Bool → Slots × Expiry
    after b =
        if b then (none ∷ q, expired id) else (some (id, due) ∷ (expire now q).0, (expire now q).1)

    at_slot :
        (b : Bool)
        → (after b).1 ≡ expired i
        → ((expire now q).1 ≡ expired i → used (expire now q).0 < used q)
        → used (after b).0 < used (some (id, due) ∷ q)
    at_slot true h ih = omega arith
    at_slot false h ih = omega (arith, ih h)

pub slab_laws : Laws slab
slab_laws = record {
  find = find;
  inserted = λ now q i secs. inserted q i (now + nanos secs);
  insert_keeps = λ now q i secs k j h. insert_keeps q (some (i, now + nanos secs)) k j h;
  removed = free_keeps;
  was_reset = λ now q k i secs h. delay_keeps (now + nanos secs) q k i h;
  expiry_keeps = expire_keeps;
  expiry_shrinks = expire_shrinks;
}
