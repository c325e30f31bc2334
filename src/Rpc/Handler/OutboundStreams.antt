-- ===== src/Rpc/Handler/OutboundStreams.antt =====
-- rpc/handler.rs: the loop of `poll` over the outbound streams.
use cl_p2p_setup.Base.{
  ℕ, ◌-◌, Bool, not, ◌&&◌, Option, none, some, List, [], ◌∷◌, ◌++◌, ltb, ◌==◌, if◌then◌else◌,
}
use cl_p2p_setup.Base.Swarm.{ok, err, ready, pending}
use cl_p2p_setup.Base.Machine.{Outcome, returns, panics, ◌>>=◌}
use cl_p2p_setup.Rpc.Methods.{RpcCodedResponse, success, error, close_after}
use cl_p2p_setup.Rpc.Outbound.{OutboundRequest}
use cl_p2p_setup.Rpc.Outbound
use cl_p2p_setup.Rpc.Handler.{
  response_timeout, SubstreamId, DelayQueue, OutboundSubstreamState, request_pending_response,
  closing, RpcReceived, HandlerEvent, OutboundInfo, RpcHandler,
}
use cl_p2p_setup.Rpc.Handler.Poll.{Context, Action, custom}

-- What the loop's body does with a stream: it is kept, with an event; it is removed; or `poll`
-- returns, with the stream kept or removed.
pub data Visited (ReqId Key : Type 0) : Type 0 where
  keeps : OutboundInfo ReqId Key → List (HandlerEvent ReqId) → Visited ReqId Key
  removes : Visited ReqId Key
  answers : Option (OutboundInfo ReqId Key) → Action ReqId → Visited ReqId Key

abbrev pub received : {ReqId : Type 0} → ReqId → RpcCodedResponse → HandlerEvent ReqId
received id (success response) = ok (RpcReceived.response id response)
received id error = err "RPC Error"

abbrev pub chunks_left : Option ℕ → ℕ
chunks_left none = 0
chunks_left (some count) = count - 1

abbrev pub Streams : (ReqId Key : Type 0) → Type 0
Streams ReqId Key = List (SubstreamId × OutboundInfo ReqId Key)

-- The streams that are left, the events to report, and the action with which `poll` returns.
pub record Swept (ReqId Queue Key : Type 0) : Type 0 where
  pub queue : Queue
  pub streams : Streams ReqId Key
  pub events : List (HandlerEvent ReqId)
  pub action : Option (Action ReqId)

abbrev pub kept :
    {ReqId Key : Type 0}
    → SubstreamId
    → Option (OutboundInfo ReqId Key)
    → Streams ReqId Key
    → Streams ReqId Key
kept id none rest = rest
kept id (some info) rest = (id, info) ∷ rest

module _ (timers : DelayQueue) {ReqId : Type 0} where
  open timers use {Queue, Key, reset, remove_key}

  -- A response has arrived.
  unfoldable pub accept_response :
      Context
      → OutboundRequest
      → RpcCodedResponse
      → OutboundInfo ReqId Key
      → Queue
      → Outcome (Queue × OutboundInfo ReqId Key)
  accept_response cx request response info q =
      if ltb 1 (Outbound.expected_responses request) && not (close_after response)
      then (let remaining = chunks_left info.remaining_chunks in
          if remaining == 0
          then returns (q, record info { state = closing })
          else (reset cx.now q info.delay_key response_timeout >>= λ q'. returns (
            q',
            record info {
              state = request_pending_response request;
              remaining_chunks = some remaining;
            },
          )))
      else returns (q, record info { state = closing })

  unfoldable pub visit :
      Context
      → (dead : Bool) → SubstreamId
      → OutboundInfo ReqId Key
      → Queue
      → Outcome (Queue × Visited ReqId Key)
  visit cx dead id info q = elim info.state [
    | request_pending_response request ↦
        if dead
        then returns (q, keeps (record info { state = closing }) (err "Handler deactivated" ∷ []))
        else elim (cx.next_response id) [
          | pending ↦ returns (q, keeps info [])
          | ready none ↦
              (remove_key q info.delay_key >>= λ q'.
              returns (q', answers none (custom (err "Incomplete response"))))
          | ready (some (err e)) ↦
              (remove_key q info.delay_key >>= λ q'.
              returns (q', answers none (custom (err "Stream dropped"))))
          | ready (some (ok response)) ↦
              (accept_response cx request response info q >>= λ (q', info').
              returns (q', answers (some info') (custom (received info'.req_id response))))
        ]
    | closing ↦ elim (cx.close_outbound id) [
      | ready closed ↦ (remove_key q info.delay_key >>= λ q'. returns (q', removes))
      | pending ↦ returns (q, keeps info [])
    ]
    | OutboundSubstreamState.poisoned ↦ panics
  ]

  -- The streams behind the one that answers are not visited.
  unfoldable pub sweep :
      Context → (dead : Bool) → Streams ReqId Key → Queue → Outcome (Swept ReqId Queue Key)
  sweep cx dead [] q = returns (record { queue = q; streams = []; events = []; action = none })
  sweep cx dead ((id, info) ∷ rest) q = visit cx dead id info q >>= λ (q', visited). elim visited [
    | keeps info' events ↦
        (sweep cx dead rest q' >>= λ swept.
        returns
          (record swept { streams = (id, info') ∷ swept.streams; events = events ++ swept.events }))
    | removes ↦ sweep cx dead rest q'
    | answers info' action ↦
        returns
          (record { queue = q'; streams = kept id info' rest; events = []; action = some action })
  ]

  unfoldable pub poll_outbound :
      Context
      → (dead : Bool) → RpcHandler ReqId Queue Key
      → Outcome (RpcHandler ReqId Queue Key × Option (Action ReqId))
  poll_outbound cx dead h =
      sweep cx dead h.outbound_substreams h.outbound_substreams_delay >>= λ swept. returns (
        record h {
          outbound_substreams = swept.streams;
          outbound_substreams_delay = swept.queue;
          events_out = h.events_out ++ swept.events;
        },
        swept.action,
      )
