-- ===== src/Rpc/Handler/Inject.antt =====
-- rpc/handler.rs: a new handler, the calls of the swarm, and the functions that they share.
use cl_p2p_setup.Base.{
  ℕ, ◌+◌, Bool, true, false, ◌&&◌, Option, none, some, List, [], ◌∷◌, ◌++◌, length, is_empty, ltb,
  ◌==◌, if◌then◌else◌, ℕ_discrete,
}
use cl_p2p_setup.Base.Swarm.{ok, err}
use cl_p2p_setup.Base.Tables.{lookup, insert}
use cl_p2p_setup.Base.Machine.{
  Outcome, returns, ◌>>=◌, Profile, u8_mod, u32_mod, usize_mod, add_word, sub_word,
}
use cl_p2p_setup.Rpc.Methods.{RpcCodedResponse, success, error}
use cl_p2p_setup.Rpc.Inbound.{InboundRequest}
use cl_p2p_setup.Rpc.Inbound
use cl_p2p_setup.Rpc.Outbound.{OutboundRequest}
use cl_p2p_setup.Rpc.Outbound
use cl_p2p_setup.Rpc.Handler.{
  shutdown_timeout_secs, max_inbound_substreams, response_timeout, io_error_retries, nanos,
  SubstreamId, DelayQueue, InboundState, request_pending_response, active, shutting_down,
  deactivated, RpcSend, RpcReceived, HandlerEvent, KeepAlive, no_more, still, UpgradeError, apply,
  other, is_active, is_deactivated, RpcHandler,
}

abbrev pub is_goodbye : InboundRequest → Bool
is_goodbye (InboundRequest.goodbye reason) = true
is_goodbye _ = false

module _ {ReqId : Type 0} where
  -- One error for each request that is dropped from the dial queue.
  unfoldable pub drop_requests : List (ReqId × OutboundRequest) → List (HandlerEvent ReqId)
  drop_requests [] = []
  drop_requests (dropped ∷ rest) = err "handler error" ∷ drop_requests rest

  abbrev pub goodbye_queue : Option ReqId → List (ReqId × OutboundRequest)
  goodbye_queue none = []
  goodbye_queue (some id) = (id, OutboundRequest.goodbye 1) ∷ []

  abbrev pub error_events : RpcCodedResponse → List (HandlerEvent ReqId)
  error_events error = err "handler error" ∷ []
  error_events (success response) = []

module _ {ReqId Queue Key : Type 0} where
  unfoldable pub shutdown :
      (now : ℕ) → Option ReqId → RpcHandler ReqId Queue Key → RpcHandler ReqId Queue Key
  shutdown now goodbye_reason h =
      if is_active h.state
      then record h {
        events_out = h.events_out ++ drop_requests h.dial_queue;
        dial_queue = goodbye_queue goodbye_reason;
        state = shutting_down (now + nanos shutdown_timeout_secs);
      }
      else h

  unfoldable pub send_request :
      ReqId → OutboundRequest → RpcHandler ReqId Queue Key → RpcHandler ReqId Queue Key
  send_request id req h =
      if is_active h.state
      then record h { dial_queue = h.dial_queue ++ (id, req) ∷ [] }
      else record h { events_out = h.events_out ++ err "handler error" ∷ [] }

  unfoldable pub send_response :
      SubstreamId → RpcCodedResponse → RpcHandler ReqId Queue Key → RpcHandler ReqId Queue Key
  send_response inbound_id response h = elim (lookup ℕ_discrete inbound_id h.inbound_substreams) [
    | none ↦ h
    | some info ↦
        let told = record h { events_out = h.events_out ++ error_events response } in
        let info' = record info { pending_items = info.pending_items ++ response ∷ [] } in
        if is_deactivated h.state then told else record told {
          inbound_substreams = insert ℕ_discrete inbound_id info' h.inbound_substreams;
        }
  ]

  unfoldable pub connection_keep_alive : RpcHandler ReqId Queue Key → KeepAlive
  connection_keep_alive h = elim h.state [
    | shutting_down until ↦
        if is_empty h.dial_queue
          && is_empty h.outbound_substreams
          && is_empty h.inbound_substreams
          && is_empty h.events_out
          && h.dial_negotiated == 0
        then no_more
        else still
    | deactivated ↦ no_more
    | active ↦ still
  ]

  -- The handler, and the waker that is woken.
  unfoldable pub inject_event :
      RpcSend ReqId → RpcHandler ReqId Queue Key → RpcHandler ReqId Queue Key × Option ℕ
  inject_event (RpcSend.request id req) h = (send_request id req h, h.waker)
  inject_event (RpcSend.response inbound_id response) h =
      (send_response inbound_id response h, h.waker)

  -- The part of `inject_dial_upgrade_error` that gives the request up.
  unfoldable pub give_up_dial :
      Profile → RpcHandler ReqId Queue Key → Outcome (RpcHandler ReqId Queue Key)
  give_up_dial profile h = do
    negotiated ← sub_word u32_mod profile h.dial_negotiated 1
    returns (record h {
      dial_negotiated = negotiated;
      outbound_io_error_retries = 0;
      events_out = h.events_out ++ err "Dial upgrade error" ∷ [];
    })

  unfoldable pub inject_dial_upgrade_error :
      Profile
      → ReqId × OutboundRequest
      → UpgradeError
      → RpcHandler ReqId Queue Key
      → Outcome (RpcHandler ReqId Queue Key)
  inject_dial_upgrade_error profile (id, req) other h = give_up_dial profile h
  inject_dial_upgrade_error profile (id, req) apply h = do
    retries ← add_word u8_mod profile h.outbound_io_error_retries 1
    let counted = record h { outbound_io_error_retries = retries }
    if ltb retries io_error_retries
        then returns (send_request id req counted)
        else give_up_dial profile counted

module _ (timers : DelayQueue) {ReqId : Type 0} where
  open timers use {Queue, Key, empty, insert_at}

  unfoldable pub new : RpcHandler ReqId Queue Key
  new = record {
    events_out = [];
    dial_queue = [];
    dial_negotiated = 0;
    inbound_substreams = [];
    inbound_substreams_delay = empty;
    outbound_substreams = [];
    outbound_substreams_delay = empty;
    current_inbound_substream_id = 0;
    current_outbound_substream_id = 0;
    max_dial_negotiated = 8;
    state = active;
    outbound_io_error_retries = 0;
    waker = none;
  }

  -- The new entry for an inbound stream that awaits `expected` responses.
  unfoldable pub register_inbound :
      (now : ℕ) → InboundRequest → ℕ → RpcHandler ReqId Queue Key → RpcHandler ReqId Queue Key
  register_inbound now req expected h =
      let id = h.current_inbound_substream_id in
      let (delay, key) = insert_at now h.inbound_substreams_delay id response_timeout in
      record h {
        inbound_substreams_delay = delay;
        inbound_substreams =
            insert ℕ_discrete id
              (record {
                state = InboundState.idle;
                pending_items = [];
                delay_key = some key;
                protocol = Inbound.protocol req;
                request_start_time = now;
                remaining_chunks = expected;
              })
              h.inbound_substreams;
      }

  -- The end of `inject_fully_negotiated_inbound`: the request is reported.
  unfoldable pub report_request :
      Profile
      → (now : ℕ) → InboundRequest
      → RpcHandler ReqId Queue Key
      → Outcome (RpcHandler ReqId Queue Key)
  report_request profile now req h = do
    let h' = if is_goodbye req then shutdown now none h else h
    next ← add_word usize_mod profile h'.current_inbound_substream_id 1
    returns (record h' {
      events_out =
          h'.events_out ++ ok (RpcReceived.request h'.current_inbound_substream_id req) ∷ [];
      current_inbound_substream_id = next;
    })

  unfoldable pub inject_fully_negotiated_inbound :
      Profile
      → (now : ℕ) → InboundRequest
      → RpcHandler ReqId Queue Key
      → Outcome (RpcHandler ReqId Queue Key)
  inject_fully_negotiated_inbound profile now req h =
      let expected = Inbound.expected_responses req in
      if is_active h.state
      then (if ltb 0 expected
          then (if ltb (length h.inbound_substreams) max_inbound_substreams
              then report_request profile now req (register_inbound now req expected h)
              else returns (
                  shutdown now none
                    (record h { events_out = h.events_out ++ err "HandlerRejected" ∷ [] })))
          else report_request profile now req h)
      else returns h

  -- The new entry for an outbound stream that awaits `expected` responses.
  unfoldable pub register_outbound :
      Profile
      → (now : ℕ) → ReqId
      → OutboundRequest
      → ℕ
      → RpcHandler ReqId Queue Key
      → Outcome (RpcHandler ReqId Queue Key)
  register_outbound profile now id req expected h = do
    let current = h.current_outbound_substream_id
    let (delay, key) = insert_at now h.outbound_substreams_delay current response_timeout
    next ← add_word usize_mod profile current 1
    returns (record h {
      outbound_substreams_delay = delay;
      outbound_substreams =
          insert ℕ_discrete current
            (record {
              state = request_pending_response req;
              delay_key = key;
              proto = Outbound.protocol req;
              remaining_chunks = if ltb 1 expected then some expected else none;
              req_id = id;
            })
            h.outbound_substreams;
      current_outbound_substream_id = next;
    })

  unfoldable pub inject_fully_negotiated_outbound :
      Profile
      → (now : ℕ) → ReqId × OutboundRequest
      → RpcHandler ReqId Queue Key
      → Outcome (RpcHandler ReqId Queue Key)
  inject_fully_negotiated_outbound profile now (id, req) h = do
    negotiated ← sub_word u32_mod profile h.dial_negotiated 1
    let expected = Outbound.expected_responses req
    let told = record h {
      dial_negotiated = negotiated;
      events_out =
          if is_deactivated h.state
          then h.events_out ++ err "HandlerState::Deactivated" ∷ []
          else h.events_out;
    }
    if ltb 0 expected then register_outbound profile now id req expected told else returns told
