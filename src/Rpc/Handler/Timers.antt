-- ===== src/Rpc/Handler/Timers.antt =====
-- rpc/handler.rs: what the handler relies on of the delay queue of tokio-util, as documented there,
-- and the timers of a stream in such a queue.
use cl_p2p_setup.Base.{ℕ, ◌<◌, ◌≡◌, ◌≢◌, refl, Option, none, some}
use cl_p2p_setup.Base.Machine.{returns}
use cl_p2p_setup.Rpc.Handler.{SubstreamId, DelayQueue, expired, response_timeout}
use cl_p2p_setup.Rpc.Handler.InboundStreams.{drop_timer, restart_timer}

-- `find q key` is the value of the entry of `key`, if the queue has it. An insertion gives a new key;
-- `remove` and `reset` do not panic on a key that is there; no call touches the entries of other
-- values; and an expired entry is taken out.
pub record Laws (timers : DelayQueue) : Type 0 where
  pub find : timers.Queue → timers.Key → Option SubstreamId
  pub inserted :
      (now : ℕ) (q : timers.Queue) (i : SubstreamId) (secs : ℕ)
      → find (timers.insert_at now q i secs).0 (timers.insert_at now q i secs).1 ≡ some i
  pub insert_keeps :
      (now : ℕ) (q : timers.Queue) (i : SubstreamId) (secs : ℕ) (k : timers.Key) (j : SubstreamId)
      → find q k ≡ some j
      → find (timers.insert_at now q i secs).0 k ≡ some j
  pub removed :
      (q : timers.Queue) (k : timers.Key) (i : SubstreamId)
      → find q k ≡ some i
      → (q' : timers.Queue) × (timers.remove_key q k ≡ returns q')
        × ((k' : timers.Key) (j : SubstreamId) → find q k' ≡ some j → j ≢ i → find q' k' ≡ some j)
  pub was_reset :
      (now : ℕ) (q : timers.Queue) (k : timers.Key) (i : SubstreamId) (secs : ℕ)
      → find q k ≡ some i
      → (q' : timers.Queue) × (timers.reset now q k secs ≡ returns q')
        × ((k' : timers.Key) (j : SubstreamId) → find q k' ≡ some j → find q' k' ≡ some j)
  pub expiry_keeps :
      (now : ℕ) (q : timers.Queue) (k : timers.Key) (j : SubstreamId)
      → find q k ≡ some j
      → (timers.poll_expired now q).1 ≢ expired j
      → find (timers.poll_expired now q).0 k ≡ some j
  pub expiry_shrinks :
      (now : ℕ) (q : timers.Queue) (i : SubstreamId)
      → (timers.poll_expired now q).1 ≡ expired i
      → timers.entries (timers.poll_expired now q).0 < timers.entries q

module _ {timers : DelayQueue} (laws : Laws timers) where
  open timers use {Queue, Key, reset, remove_key}
  open laws use {find, removed, was_reset}

  -- The stream has no timer, or an entry of its own in the queue.
  abbrev pub IsTimed : Queue → SubstreamId → Option Key → Type 0
  IsTimed q id none = Unit
  IsTimed q id (some key) = find q key ≡ some id

  -- The entries of all other streams are kept.
  abbrev pub Keeps : Queue → Queue → SubstreamId → Type 0
  Keeps q q' id = (k : Key) (j : SubstreamId) → find q k ≡ some j → j ≢ id → find q' k ≡ some j

  pub drop_timer_lem :
      (q : Queue) (id : SubstreamId) (key : Option Key)
      → IsTimed q id key
      → (q' : Queue) × (drop_timer timers key q ≡ returns q') × Keeps q q' id
  unfolding drop_timer
  drop_timer_lem q id none h = (q, refl, λ k j e ne. e)
  drop_timer_lem q id (some key) h = removed q key id h

  pub restart_timer_lem :
      (now : ℕ) (q : Queue) (id : SubstreamId) (key : Option Key)
      → IsTimed q id key
      → (q' : Queue) × (restart_timer timers now key q ≡ returns q')
        × IsTimed q' id key
        × Keeps q q' id
  unfolding restart_timer
  restart_timer_lem now q id none h = (q, refl, tt, λ k j e ne. e)
  restart_timer_lem now q id (some key) h =
      let (q', e, kept) = was_reset now q key id response_timeout h in
      (q', e, kept key id h, λ k j f ne. kept k j f)

  pub IsTimed-under :
      (q q' : Queue) (id : SubstreamId) (key : Option Key)
      → ((k : Key) → find q k ≡ some id → find q' k ≡ some id)
      → IsTimed q id key
      → IsTimed q' id key
  IsTimed-under q q' id none k h = tt
  IsTimed-under q q' id (some key) k h = k key h
