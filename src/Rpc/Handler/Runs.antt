-- ===== src/Rpc/Handler/Runs.antt =====
-- Runs of a handler on a concrete delay queue.
use cl_p2p_setup.Base.{
  ℕ, ◌≡◌, refl, subst, Bool, true, false, some, List, [], ◌∷◌, if◌then◌else◌, ℕ_discrete,
}
use cl_p2p_setup.Base.Swarm.{pending}
use cl_p2p_setup.Base.Tables.{lookup, insert, remove}
use cl_p2p_setup.Base.Machine.{
  Outcome, returns, panics, ◌>>=◌, >>=-eq-returns, returns-injective, Profile, checked,
}
use cl_p2p_setup.Rpc.Outbound.{OutboundRequest}
use cl_p2p_setup.Rpc.Handler.{RpcHandler, RpcSend, apply, active}
use cl_p2p_setup.Rpc.Handler.Inject.{
  drop_requests, shutdown, send_request, send_response, connection_keep_alive, inject_event,
  give_up_dial, inject_dial_upgrade_error, new, register_inbound, report_request,
  inject_fully_negotiated_inbound, register_outbound, inject_fully_negotiated_outbound,
}
use cl_p2p_setup.Rpc.Handler.Poll.{
  Context, send_message_to_inbound_substream, update_waker, poll_dial, poll_shutdown, poll_sleep,
  time_out_inbound, expire_inbound, expire_outbound,
}
use cl_p2p_setup.Rpc.Handler.InboundStreams.{
  drop_timer, restart_timer, drive_busy, drive_idle, close_idle, drive, drive_all, poll_inbound,
}
use cl_p2p_setup.Rpc.Handler.OutboundStreams.{accept_response, visit, sweep, poll_outbound}
use cl_p2p_setup.Rpc.Handler.Turn.{poll_streams, poll_rest, poll}
use cl_p2p_setup.Rpc.Handler.Calls.{
  Call, polls, dial_fails, injects, World, is_allowed, call, new_world, Reach, starts, next,
}
use cl_p2p_setup.Rpc.Handler.Slab.{slab, Slots, find, free, delay, expire, used}
use cl_p2p_setup.Rpc.Handler.Events
use cl_p2p_setup.Rpc.Handler.Events.{delivered, polls-events}

program : Unit {0}
unfolding lookup insert remove drop_requests shutdown send_request send_response
    connection_keep_alive inject_event give_up_dial inject_dial_upgrade_error new register_inbound
    report_request inject_fully_negotiated_inbound register_outbound
    inject_fully_negotiated_outbound send_message_to_inbound_substream update_waker poll_dial
    poll_shutdown poll_sleep time_out_inbound expire_inbound expire_outbound drop_timer
    restart_timer drive_busy drive_idle close_idle drive drive_all poll_inbound accept_response
    visit sweep poll_outbound poll_streams poll_rest poll call find free delay expire used
    Events.polls ℕ_discrete
program = tt

abbrev pub Handler : Type 0
Handler = RpcHandler ℕ Slots ℕ

abbrev pub TestWorld : Type 0
TestWorld = World ℕ Slots ℕ

-- No stream answers, and no sleep is over.
abbrev pub silent : ℕ → Context
silent now = record {
  now = now;
  task = 7;
  sleep_elapsed = false;
  sending = λ id round. pending;
  close_inbound = λ id. pending;
  next_response = λ id. pending;
  close_outbound = λ id. pending;
}

abbrev pub awake : Context
awake = record (silent 0) { sleep_elapsed = true }

-- The calls one after the other, each if it is allowed.
unfoldable run : Profile → List (Call ℕ) → TestWorld → Outcome TestWorld
run profile [] w = returns w
run profile (c ∷ cs) w =
    (if is_allowed c w then call slab profile c w else panics) >>= run profile cs

run-Reach :
    (profile : Profile) (cs : List (Call ℕ)) (w w' : TestWorld)
    → Reach slab profile w
    → run profile cs w ≡ returns w'
    → Reach slab profile w'
unfolding run
run-Reach profile [] w w' r e = subst (Reach slab profile) (returns-injective e) r
run-Reach profile (c ∷ cs) w w' r e =
    let (v, f, g) = >>=-eq-returns _ (run profile cs) e in
    run-Reach profile cs v w' (by_test (is_allowed c w) refl f) g
  where
    by_test :
        {v : TestWorld} (b : Bool)
        → is_allowed c w ≡ b
        → (if b then call slab profile c w else panics) ≡ returns v
        → Reach slab profile v
    by_test true a f = next c w _ r a f
    by_test false a f = cc

abbrev pub ping : OutboundRequest
ping = OutboundRequest.ping (record { payload = 5 })

-- A request, its dial, and two failures that are tried again.
abbrev twice_failed : List (Call ℕ)
twice_failed =
    injects (RpcSend.request 1 ping)
    ∷ polls (silent 0)
    ∷ dial_fails (1, ping) apply
    ∷ polls (silent 0)
    ∷ dial_fails (1, ping) apply
    ∷ []

-- The third dial, a failure that is not, and its report.
abbrev given_up : List (Call ℕ)
given_up = polls (silent 0) ∷ dial_fails (1, ping) apply ∷ polls (silent 0) ∷ []

-- An otherwise idle world with `count` retried dials, and no dial under way.
abbrev pub retried_world : ℕ → ℕ → List (ℕ × OutboundRequest) → TestWorld
retried_world count retries queue = record {
  handler = record {
    events_out = [];
    dial_queue = queue;
    dial_negotiated = count;
    inbound_substreams = [];
    inbound_substreams_delay = [];
    outbound_substreams = [];
    outbound_substreams_delay = [];
    current_inbound_substream_id = 0;
    current_outbound_substream_id = 0;
    max_dial_negotiated = 8;
    state = active;
    outbound_io_error_retries = retries;
    waker = some 7;
  };
  under_way = 0;
  retried = count;
}

abbrev pub waiting : ℕ → TestWorld
waiting count = retried_world count 2 ((1, ping) ∷ [])

abbrev pub idle_again : ℕ → TestWorld
idle_again count = retried_world count 0 []

runs_0 : run checked twice_failed (new_world slab) ≡ returns (waiting 2)
unfolding run program
runs_0 = refl

runs_1 : run checked given_up (waiting 2) ≡ returns (idle_again 2)
unfolding run program
runs_1 = refl

runs_2 : run checked twice_failed (idle_again 2) ≡ returns (waiting 4)
unfolding run program
runs_2 = refl

runs_3 : run checked given_up (waiting 4) ≡ returns (idle_again 4)
unfolding run program
runs_3 = refl

runs_4 : run checked twice_failed (idle_again 4) ≡ returns (waiting 6)
unfolding run program
runs_4 = refl

runs_5 : run checked given_up (waiting 6) ≡ returns (idle_again 6)
unfolding run program
runs_5 = refl

runs_6 : run checked twice_failed (idle_again 6) ≡ returns (waiting 8)
unfolding run program
runs_6 = refl

pub waiting_2-Reach : Reach slab checked (waiting 2)
waiting_2-Reach = run-Reach checked twice_failed (new_world slab) (waiting 2) starts runs_0

pub waiting_8-Reach : Reach slab checked (waiting 8)
waiting_8-Reach =
    let two = run-Reach checked given_up (waiting 2) (idle_again 2) waiting_2-Reach runs_1 in
    let four = run-Reach checked twice_failed (idle_again 2) (waiting 4) two runs_2 in
    let four' = run-Reach checked given_up (waiting 4) (idle_again 4) four runs_3 in
    let six = run-Reach checked twice_failed (idle_again 4) (waiting 6) four' runs_4 in
    let six' = run-Reach checked given_up (waiting 6) (idle_again 6) six runs_5 in
    run-Reach checked twice_failed (idle_again 6) (waiting 8) six' runs_6
