-- ===== src/Rpc/Handler/InboundStreams.antt =====
-- rpc/handler.rs: the loop of `poll` over the inbound streams.
use cl_p2p_setup.Base.{
  ℕ, suc, ◌-◌, Bool, true, false, Option, none, some, List, [], ◌∷◌, ◌++◌, last, leb, if◌then◌else◌,
}
use cl_p2p_setup.Base.Swarm.{Result, ok, err, ready, pending}
use cl_p2p_setup.Base.Machine.{Outcome, returns, panics, ◌>>=◌}
use cl_p2p_setup.Rpc.Methods.{RpcCodedResponse}
use cl_p2p_setup.Rpc.Protocol.{RpcError}
use cl_p2p_setup.Rpc.Handler.{
  response_timeout, SubstreamId, DelayQueue, InboundState, idle, busy, HandlerEvent, InboundInfo,
  RpcHandler,
}
use cl_p2p_setup.Rpc.Handler.Poll.{Context, send_message_to_inbound_substream, is_cut_short}

-- How the inner loop ends for a stream: it is kept, or it is to be removed. A stream that leaves
-- reports its events.
pub data Ended (ReqId Key : Type 0) : Type 0 where
  stays : InboundInfo Key → Ended ReqId Key
  leaves : List (HandlerEvent ReqId) → Ended ReqId Key

abbrev pub shutdown_events :
    {ReqId : Type 0} → Result (Unit {0}) RpcError → List (HandlerEvent ReqId)
shutdown_events (ok closed) = []
shutdown_events (err e) = err "Error shutting down the substream" ∷ []

abbrev pub cancel_events : {ReqId : Type 0} → List RpcCodedResponse → List (HandlerEvent ReqId)
cancel_events items = if is_cut_short (last items) then err "Cancel Request" ∷ [] else []

abbrev pub Streams : Type 0 → Type 0
Streams Key = List (SubstreamId × InboundInfo Key)

module _ (timers : DelayQueue) where
  open timers use {Queue, Key, reset, remove_key}

  -- `if let Some(ref delay_key) = info.delay_key { .. }`, for `remove` and for `reset`.
  unfoldable pub drop_timer : Option Key → Queue → Outcome Queue
  drop_timer none q = returns q
  drop_timer (some key) q = remove_key q key

  unfoldable pub restart_timer : (now : ℕ) → Option Key → Queue → Outcome Queue
  restart_timer now none q = returns q
  restart_timer now (some key) q = reset now q key response_timeout

module _ (timers : DelayQueue) {ReqId : Type 0} where
  open timers use {Queue, Key}

  -- The stream leaves, and its timer goes.
  abbrev pub leave :
      InboundInfo Key → List (HandlerEvent ReqId) → Queue → Outcome (Queue × Ended ReqId Key)
  leave info events q = drop_timer timers info.delay_key q >>= λ q'. returns (q', leaves events)

  -- The rounds of the inner loop from a state that is busy with `message`. `items` are the pending
  -- ones; each round that goes on takes one of them. `round` counts the polls of the stream.
  unfoldable pub drive_busy :
      Context
      → (dead : Bool) → SubstreamId
      → (round : ℕ) → (message : RpcCodedResponse) (last_chunk : Bool) → List RpcCodedResponse
      → InboundInfo Key
      → Queue
      → Outcome (Queue × Ended ReqId Key)
  drive_busy cx dead id round message last_chunk [] info q = elim (cx.sending id round) [
    | pending ↦
        returns (q, stays (record info { state = busy message last_chunk; pending_items = [] }))
    | ready (send, close) ↦ elim (send_message_to_inbound_substream message last_chunk send close) [
      | ok true ↦ leave info [] q
      | err e ↦ leave info (err "Response error" ∷ []) q
      | ok false ↦
          (restart_timer timers cx.now info.delay_key q >>= λ q'. returns (
            q',
            stays (record info {
              state = idle;
              pending_items = [];
              remaining_chunks = info.remaining_chunks - 1;
            }),
          ))
    ]
  ]
  drive_busy cx dead id round message last_chunk (next ∷ items) info q =
      elim (cx.sending id round) [
        | pending ↦ returns (
          q,
          stays (record info { state = busy message last_chunk; pending_items = next ∷ items }),
        )
        | ready (send, close) ↦
            elim (send_message_to_inbound_substream message last_chunk send close) [
              | ok true ↦ leave info [] q
              | err e ↦ leave info (err "Response error" ∷ []) q
              | ok false ↦
                  let remaining = info.remaining_chunks - 1 in
                  let info' = record info { remaining_chunks = remaining } in
                  (restart_timer timers cx.now info.delay_key q >>= λ q'. elim dead [
                    | true ↦
                        returns
                          (q', stays (record info' { state = idle; pending_items = next ∷ items }))
                    | false ↦
                        drive_busy cx dead id (suc round) next (leb remaining 1) items info' q'
                  ])
            ]
      ]

  -- The idle state, while the handler is not deactivated.
  unfoldable pub drive_idle :
      Context
      → SubstreamId
      → List RpcCodedResponse
      → InboundInfo Key
      → Queue
      → Outcome (Queue × Ended ReqId Key)
  drive_idle cx id [] info q = returns (q, stays (record info { state = idle }))
  drive_idle cx id (message ∷ items) info q =
      drive_busy cx false id 0 message (leb info.remaining_chunks 1) items info q

  -- The idle state of a deactivated handler: the stream is closed.
  unfoldable pub close_idle :
      Context → SubstreamId → InboundInfo Key → Queue → Outcome (Queue × Ended ReqId Key)
  close_idle cx id info q = elim (cx.close_inbound id) [
    | pending ↦ returns (q, stays (record info { state = idle }))
    | ready closed ↦ leave info (shutdown_events closed ++ cancel_events info.pending_items) q
  ]

  unfoldable pub drive :
      Context
      → (dead : Bool) → SubstreamId
      → InboundInfo Key
      → Queue
      → Outcome (Queue × Ended ReqId Key)
  drive cx dead id info q = elim info.state [
    | idle ↦ if dead then close_idle cx id info q else drive_idle cx id info.pending_items info q
    | busy message last_chunk ↦ drive_busy cx dead id 0 message last_chunk info.pending_items info q
    | InboundState.poisoned ↦ panics
  ]

  -- A stream that leaves is left out of the map here; the source removes these after the loop.
  abbrev pub after_drive :
      SubstreamId
      → Ended ReqId Key
      → Streams Key × List (HandlerEvent ReqId)
      → Streams Key × List (HandlerEvent ReqId)
  after_drive id (stays info) (streams, events) = ((id, info) ∷ streams, events)
  after_drive id (leaves reported) (streams, events) = (streams, reported ++ events)

  unfoldable pub drive_all :
      Context
      → (dead : Bool) → Streams Key
      → Queue
      → Outcome (Queue × (Streams Key × List (HandlerEvent ReqId)))
  drive_all cx dead [] q = returns (q, ([], []))
  drive_all cx dead ((id, info) ∷ rest) q = drive cx dead id info q >>= λ (q', ended).
      (drive_all cx dead rest q' >>= λ (q'', result). returns (q'', after_drive id ended result))

  unfoldable pub poll_inbound :
      Context → (dead : Bool) → RpcHandler ReqId Queue Key → Outcome (RpcHandler ReqId Queue Key)
  poll_inbound cx dead h =
      drive_all cx dead h.inbound_substreams h.inbound_substreams_delay
      >>= λ (q, (streams, events)). returns (record h {
        inbound_substreams = streams;
        inbound_substreams_delay = q;
        events_out = h.events_out ++ events;
      })
