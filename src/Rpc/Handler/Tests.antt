-- ===== src/Rpc/Handler/Tests.antt =====
-- Handlers on a concrete delay queue, what the code does on them, and the theorems at them.
use cl_p2p_setup.Base.{
  ℕ, ◌+◌, ◌≤◌, ◌≡◌, refl, ite, none, some, [], ◌∷◌, ◌++◌, map, length, if◌then◌else◌, arith,
  ℕ_discrete,
}
use cl_p2p_setup.Base.Swarm.{ready, ok, err}
use cl_p2p_setup.Base.Tables.{lookup, insert, remove}
use cl_p2p_setup.Base.Machine.{returns, checked}
use cl_p2p_setup.Rpc.Methods.{RpcResponse, RpcCodedResponse, success}
use cl_p2p_setup.Rpc.Protocol.{Protocol, RpcError}
use cl_p2p_setup.Rpc.Inbound.{InboundRequest}
use cl_p2p_setup.Rpc.Handler.{
  RpcSend, shutting_down, deactivated, RpcReceived, InboundInfo, InboundState, is_active,
  max_inbound_substreams, still,
}
use cl_p2p_setup.Rpc.Handler.Inject.{
  drop_requests, goodbye_queue, shutdown, send_request, send_response, connection_keep_alive,
  inject_event, give_up_dial, inject_dial_upgrade_error, new, register_inbound, report_request,
  inject_fully_negotiated_inbound, register_outbound, inject_fully_negotiated_outbound,
}
use cl_p2p_setup.Rpc.Handler.Poll.{
  Action, send_message_to_inbound_substream, update_waker, poll_dial, poll_shutdown, poll_sleep,
  time_out_inbound, expire_inbound, expire_outbound,
}
use cl_p2p_setup.Rpc.Handler.InboundStreams.{
  drop_timer, restart_timer, drive_busy, drive_idle, close_idle, drive, drive_all, poll_inbound,
}
use cl_p2p_setup.Rpc.Handler.OutboundStreams.{accept_response, visit, sweep, poll_outbound}
use cl_p2p_setup.Rpc.Handler.Turn.{poll_streams, poll_rest, poll}
use cl_p2p_setup.Rpc.Handler.Calls.{polls, takes_inbound, injects, call, Reach, next, IsGood}
use cl_p2p_setup.Rpc.Handler.Slab.{slab, slab_laws, find, free, delay, expire, used}
use cl_p2p_setup.Rpc.Handler.Events
use cl_p2p_setup.Rpc.Handler.Events.{delivered, polls-events}
use cl_p2p_setup.Rpc.Handler.Reach.{Reach-returns, Reach-bounds, Reach-dial_queue, Reach-starves}
use cl_p2p_setup.Rpc.Handler.Rounds.{expire_inbound-rounds, expire_outbound-rounds}
use cl_p2p_setup.Rpc.Handler.Closing.{
  shutdown_lem, queued, send_response-lookup, polls-close, Reach-still,
}
use cl_p2p_setup.Rpc.Handler.Runs.{
  Handler, TestWorld, silent, awake, ping, waiting, idle_again, waiting_2-Reach, waiting_8-Reach,
}

program : Unit {0}
unfolding lookup insert remove drop_requests shutdown send_request send_response
    connection_keep_alive inject_event give_up_dial inject_dial_upgrade_error new register_inbound
    report_request inject_fully_negotiated_inbound register_outbound
    inject_fully_negotiated_outbound send_message_to_inbound_substream update_waker poll_dial
    poll_shutdown poll_sleep time_out_inbound expire_inbound expire_outbound drop_timer
    restart_timer drive_busy drive_idle close_idle drive drive_all poll_inbound accept_response
    visit sweep poll_outbound poll_streams poll_rest poll call find free delay expire used
    Events.polls ℕ_discrete
program = tt

-- The request waits, and `poll` does not dial.
waits : call slab checked (polls (silent 0)) (waiting 8) ≡ returns (waiting 8)
unfolding program
waits = refl

Reach-starves_example : ((waiting 8).retried ≡ 8) × ((waiting 8).under_way ≡ 0)
Reach-starves_example =
    Reach-starves slab_laws checked (polls (silent 0)) (waiting 8) (waiting 8) waiting_8-Reach refl
      refl waits

Reach-returns_example :
    (w' : TestWorld) × (call slab checked (injects (RpcSend.request 2 ping)) (waiting 8)
      ≡ returns w')
    × IsGood slab_laws w'
Reach-returns_example =
    Reach-returns slab_laws checked (injects (RpcSend.request 2 ping)) (waiting 8) waiting_8-Reach
      refl

Reach-bounds_example :
    (length (waiting 8).handler.inbound_substreams ≤ max_inbound_substreams)
    × ((waiting 8).under_way + (waiting 8).retried ≤ 8)
    × ((waiting 8).handler.dial_negotiated ≡ (waiting 8).under_way + (waiting 8).retried)
Reach-bounds_example = Reach-bounds slab_laws checked (waiting 8) waiting_8-Reach

-- Peer's goodbye: the handler shuts down, and its request is dropped.
abbrev leaving : TestWorld
leaving = record (waiting 2) {
  handler = record (waiting 2).handler {
    events_out = err "handler error" ∷ ok (RpcReceived.request 0 (InboundRequest.goodbye 1)) ∷ [];
    dial_queue = [];
    current_inbound_substream_id = 1;
    state = shutting_down 15_000_000_000;
  };
}

leaves :
    call slab checked (takes_inbound 0 (InboundRequest.goodbye 1)) (waiting 2) ≡ returns leaving
unfolding program
leaves = refl

leaving-Reach : Reach slab checked leaving
leaving-Reach =
    next (takes_inbound 0 (InboundRequest.goodbye 1)) (waiting 2) leaving waiting_2-Reach refl
      leaves

Reach-dial_queue_example : leaving.handler.dial_queue ≡ []
Reach-dial_queue_example = Reach-dial_queue slab_laws checked leaving leaving-Reach refl

Reach-still_example :
    (poll_shutdown leaving.handler ≡ none) × (connection_keep_alive leaving.handler ≡ still)
Reach-still_example =
    Reach-still slab_laws checked 15_000_000_000 leaving leaving-Reach (omega arith) refl

polls-close_example :
    (h' : Handler) × (h'' : Handler) × (Events.polls slab checked
        (silent 1 ∷ silent 2 ∷ [])
        leaving.handler
      ≡ returns (h', map (delivered slab) leaving.handler.events_out))
    × (poll slab checked awake h' ≡ returns (h'', ready (Action.close RpcError.error)))
    × (h''.state ≡ deactivated)
polls-close_example =
    polls-close slab checked (silent 1 ∷ silent 2 ∷ []) awake 15_000_000_000 leaving.handler refl
      refl refl

polls-events_example :
    Events.polls slab checked (silent 1 ∷ silent 2 ∷ []) leaving.handler
    ≡ returns (
      record leaving.handler {
        events_out = [];
        waker = Events.wakers leaving.handler.waker (silent 1 ∷ silent 2 ∷ []);
      },
      map (delivered slab) leaving.handler.events_out,
    )
polls-events_example = polls-events slab checked (silent 1 ∷ silent 2 ∷ []) leaving.handler refl

shutdown_example :
    let h = (waiting 2).handler in
    ((shutdown 5 (some 3) h).events_out
      ≡ h.events_out
        ++ map (λ request. err "handler error") (if is_active h.state then h.dial_queue else []))
    × ((shutdown 5 (some 3) h).dial_queue
        ≡ (if is_active h.state then goodbye_queue (some 3) else h.dial_queue))
    × ((shutdown 5 (some 3) h).state
        ≡ (if is_active h.state then shutting_down (5 + 15_000_000_000) else h.state))
    × (shutdown 5 (some 3) h ≡ record h {
      events_out = (shutdown 5 (some 3) h).events_out;
      dial_queue = (shutdown 5 (some 3) h).dial_queue;
      state = (shutdown 5 (some 3) h).state;
    })
    × (shutdown 6 none (shutdown 5 (some 3) h) ≡ shutdown 5 (some 3) h)
shutdown_example = shutdown_lem 5 6 (some 3) none (waiting 2).handler

-- A handler with two inbound streams.
abbrev stream : ℕ → InboundInfo ℕ
stream key = record {
  state = InboundState.idle;
  pending_items = [];
  protocol = Protocol.ping;
  remaining_chunks = 1;
  request_start_time = 0;
  delay_key = some key;
}

abbrev serving : Handler
serving = record (idle_again 2).handler {
  inbound_substreams = (0, stream 0) ∷ (1, stream 1) ∷ [];
  inbound_substreams_delay = some (0, 10) ∷ some (1, 20) ∷ [];
  current_inbound_substream_id = 2;
}

abbrev pong : RpcCodedResponse
pong = success (RpcResponse.pong (record { payload = 5 }))

send_response_example :
    lookup ℕ_discrete 1 (send_response 1 pong serving).inbound_substreams
    ≡ ite
        (ℕ_discrete 1 1)
        (queued pong (lookup ℕ_discrete 1 serving.inbound_substreams))
        (lookup ℕ_discrete 1 serving.inbound_substreams)
send_response_example = send_response-lookup 1 1 pong serving refl

expire_inbound_example : expire_inbound slab 3 15 serving ≡ expire_inbound slab 9 15 serving
unfolding used
expire_inbound_example = expire_inbound-rounds slab_laws 3 9 15 serving (omega arith) (omega arith)

expire_outbound_example : expire_outbound slab 1 15 serving ≡ expire_outbound slab 4 15 serving
unfolding used
expire_outbound_example =
    expire_outbound-rounds slab_laws 1 4 15 serving (omega arith) (omega arith)
