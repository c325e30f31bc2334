-- ===== src/Rpc/Handler/InboundSafety.antt =====
-- rpc/handler.rs: panics and timers in the loop over the inbound streams.
use cl_p2p_setup.Base.{
  ℕ, suc, ◌-◌, ◌≡◌, refl, inl, inr, Bool, true, false, some, List, [], ◌∷◌, leb, if◌then◌else◌,
}
use cl_p2p_setup.Base.Swarm.{Poll-cases, Result-cases}
use cl_p2p_setup.Base.Machine.{Outcome, returns, panics, ◌>>=◌}
use cl_p2p_setup.Rpc.Methods.{RpcCodedResponse}
use cl_p2p_setup.Rpc.Handler.{
  SubstreamId, DelayQueue, InboundState, idle, busy, HandlerEvent, InboundInfo,
}
use cl_p2p_setup.Rpc.Handler.Table.{Carries}
use cl_p2p_setup.Rpc.Handler.Poll.{Context, send_message_to_inbound_substream}
use cl_p2p_setup.Rpc.Handler.InboundStreams.{
  Ended, stays, leaves, restart_timer, leave, drive_busy, drive_idle, close_idle, drive,
}
use cl_p2p_setup.Rpc.Handler.Timers.{
  Laws, IsTimed, Keeps, drop_timer_lem, restart_timer_lem, IsTimed-under,
}

abbrev pub is_poisoned : InboundState → Bool
is_poisoned InboundState.poisoned = true
is_poisoned _ = false

module _ {timers : DelayQueue} (laws : Laws timers) where
  open timers use {Queue, Key}

  -- An entry that the loop can handle: it is not poisoned, and its timer is in the queue.
  pub record IsSound (q : Queue) (id : SubstreamId) (info : InboundInfo Key) : Type 0 where
    pub timed : IsTimed laws q id info.delay_key
    pub whole : is_poisoned info.state ≡ false

  Keeps-trans :
      (q q' q'' : Queue) (id : SubstreamId)
      → Keeps laws q q' id
      → Keeps laws q' q'' id
      → Keeps laws q q'' id
  Keeps-trans q q' q'' id a b k j e ne = b k j (a k j e ne) ne

  pub IsSound-under :
      (q q' : Queue) (id : SubstreamId) (info : InboundInfo Key)
      → ((k : Key) → laws.find q k ≡ some id → laws.find q' k ≡ some id)
      → IsSound q id info
      → IsSound q' id info
  IsSound-under q q' id info k h = record {
    timed = IsTimed-under laws q q' id info.delay_key k h.timed;
    whole = h.whole;
  }

  pub Keeps-Carries :
      (q q' : Queue) (id : SubstreamId) → Keeps laws q q' id → Carries (IsSound q) (IsSound q') id
  Keeps-Carries q q' id k j info ne h = IsSound-under q q' j info (λ key e. k key j e ne) h

module _ {timers : DelayQueue} (laws : Laws timers) {ReqId : Type 0} where
  open timers use {Queue, Key}

  abbrev pub EndsSound : Queue → SubstreamId → Ended ReqId Key → Type 0
  EndsSound q id (stays info) = IsSound laws q id info
  EndsSound q id (leaves events) = Unit

  -- A stream is driven without a panic; it stays sound, if it stays, and other timers are kept.
  pub record Driven (q : Queue) (id : SubstreamId) (r : Outcome (Queue × Ended ReqId Key))
      : Type 0 where
    pub queue : Queue
    pub ended : Ended ReqId Key
    pub result : r ≡ returns (queue, ended)
    pub sound : EndsSound queue id ended
    pub keeps : Keeps laws q queue id

  leave-Driven :
      (q : Queue) (id : SubstreamId) (info : InboundInfo Key) (events : List (HandlerEvent ReqId))
      → IsTimed laws q id info.delay_key
      → Driven q id (leave timers info events q)
  leave-Driven q id info events h =
      let (q', e, kept) = drop_timer_lem laws q id info.delay_key h in
      record { queue = q'; ended = leaves events; result = rw e; sound = tt; keeps = kept }

  stays-Driven :
      (q : Queue) (id : SubstreamId) (info : InboundInfo Key)
      → IsSound laws q id info
      → Driven q id (returns (q, stays info))
  stays-Driven q id info h = record {
    queue = q;
    ended = stays info;
    result = refl;
    sound = h;
    keeps = λ k j e ne. e;
  }

  -- After a restarted timer.
  restarted-Driven :
      (now : ℕ) (q : Queue) (id : SubstreamId) (info : InboundInfo Key)
      (rest : Queue → Outcome (Queue × Ended ReqId Key))
      → IsTimed laws q id info.delay_key
      → ((q' : Queue) → IsTimed laws q' id info.delay_key → Driven q' id (rest q'))
      → Driven q id (restart_timer timers now info.delay_key q >>= rest)
  restarted-Driven now q id info rest h go =
      let (q', e, timed, kept) = restart_timer_lem laws now q id info.delay_key h in
      let d = go q' timed in
      record {
        queue = d.queue;
        ended = d.ended;
        result = rw e d.result;
        sound = d.sound;
        keeps = Keeps-trans laws q q' d.queue id kept d.keeps;
      }

  drive_busy-Driven :
      (cx : Context) (dead : Bool) (id : SubstreamId) (round : ℕ) (message : RpcCodedResponse)
      (last_chunk : Bool) (items : List RpcCodedResponse) (info : InboundInfo Key) (q : Queue)
      → IsTimed laws q id info.delay_key
      → Driven q id (drive_busy timers cx dead id round message last_chunk items info q)
  unfolding drive_busy
  drive_busy-Driven cx dead id round message last_chunk [] info q h =
      elim (Poll-cases (cx.sending id round)) [
        | inr e ↦ rw (e, drive_busy) (stays-Driven q id _ (record { timed = h; whole = refl }))
        | inl ((send, close), e) ↦
            elim (Result-cases (send_message_to_inbound_substream message last_chunk send close)) [
              | inr (error, e') ↦ rw (e, e', drive_busy) ((leave-Driven q id info _ h))
              | inl (true, e') ↦ rw (e, e', drive_busy) ((leave-Driven q id info _ h))
              | inl (false, e') ↦
                  rw (e, e', drive_busy)
                    ((restarted-Driven cx.now q id info _ h
                      (λ q' timed. stays-Driven q' id _ (record { timed = timed; whole = refl }))))
            ]
      ]
  drive_busy-Driven cx dead id round message last_chunk (next ∷ items) info q h =
      elim (Poll-cases (cx.sending id round)) [
        | inr e ↦ rw (e, drive_busy) (stays-Driven q id _ (record { timed = h; whole = refl }))
        | inl ((send, close), e) ↦
            elim (Result-cases (send_message_to_inbound_substream message last_chunk send close)) [
              | inr (error, e') ↦ rw (e, e', drive_busy) ((leave-Driven q id info _ h))
              | inl (true, e') ↦ rw (e, e', drive_busy) ((leave-Driven q id info _ h))
              | inl (false, e') ↦
                  rw (e, e', drive_busy)
                    (restarted-Driven cx.now q id info _ h (
                      goes_on dead (λ q' timed.
                        drive_busy-Driven cx dead id (suc round) next
                          (leb (info.remaining_chunks - 1) 1) items info' q' timed)))
            ]
      ]
    where
      info' : InboundInfo Key
      info' = record info { remaining_chunks = info.remaining_chunks - 1 }

      next_round : Queue → Outcome (Queue × Ended ReqId Key)
      next_round =
          drive_busy timers cx dead id (suc round) next (leb (info.remaining_chunks - 1) 1) items
            info'

      goes_on :
          (d : Bool)
          → ((q' : Queue) → IsTimed laws q' id info.delay_key → Driven q' id (next_round q'))
          → (q' : Queue) → IsTimed laws q' id info.delay_key
          → Driven q' id (elim d [
            | true ↦
                returns (q', stays (record info' { state = idle; pending_items = next ∷ items }))
            | false ↦ next_round q'
          ])
      goes_on true more q' timed = stays-Driven q' id _ (record { timed = timed; whole = refl })
      goes_on false more q' timed = more q' timed

  close_idle-Driven :
      (cx : Context) (id : SubstreamId) (info : InboundInfo Key) (q : Queue)
      → IsTimed laws q id info.delay_key
      → Driven q id (close_idle timers cx id info q)
  unfolding close_idle
  close_idle-Driven cx id info q h = elim (Poll-cases (cx.close_inbound id)) [
    | inr e ↦ rw (e, close_idle) (stays-Driven q id _ (record { timed = h; whole = refl }))
    | inl (closed, e) ↦ rw (e, close_idle) (leave-Driven q id info _ h)
  ]

  drive_idle-Driven :
      (cx : Context) (id : SubstreamId) (items : List RpcCodedResponse) (info : InboundInfo Key)
      (q : Queue)
      → IsTimed laws q id info.delay_key
      → Driven q id (drive_idle timers cx id items info q)
  unfolding drive_idle
  drive_idle-Driven cx id [] info q h = stays-Driven q id _ (record { timed = h; whole = refl })
  drive_idle-Driven cx id (message ∷ items) info q h =
      drive_busy-Driven cx false id 0 message (leb info.remaining_chunks 1) items info q h

  pub drive-Driven :
      (cx : Context) (dead : Bool) (id : SubstreamId) (info : InboundInfo Key) (q : Queue)
      → IsSound laws q id info
      → Driven q id (drive timers cx dead id info q)
  unfolding drive
  drive-Driven cx dead id info q h = by_state info.state h.whole dead
    where
      by_state :
          (s : InboundState)
          → is_poisoned s ≡ false
          → (dead : Bool)
          → Driven q id (elim s [
            | idle ↦
                if dead
                then close_idle timers cx id info q
                else drive_idle timers cx id info.pending_items info q
            | busy message last_chunk ↦
                drive_busy timers cx dead id 0 message last_chunk info.pending_items info q
            | InboundState.poisoned ↦ panics
          ])
      by_state idle w true = close_idle-Driven cx id info q h.timed
      by_state idle w false = drive_idle-Driven cx id info.pending_items info q h.timed
      by_state (busy message last_chunk) w d =
          drive_busy-Driven cx d id 0 message last_chunk info.pending_items info q h.timed
      by_state InboundState.poisoned w d = cc
