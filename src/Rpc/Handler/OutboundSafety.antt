-- ===== src/Rpc/Handler/OutboundSafety.antt =====
-- rpc/handler.rs: panics and timers in the loop over the outbound streams.
use cl_p2p_setup.Base.{
  ◌≡◌, refl, inl, inr, Bool, true, false, not, ◌&&◌, Option, none, some, [], ltb, ◌==◌, Bool-cases,
}
use cl_p2p_setup.Base.Swarm.{Result, ok, err, Poll, ready, pending}
use cl_p2p_setup.Base.Machine.{Outcome, returns, ◌>>=◌}
use cl_p2p_setup.Rpc.Methods.{RpcCodedResponse, close_after}
use cl_p2p_setup.Rpc.Outbound.{OutboundRequest}
use cl_p2p_setup.Rpc.Outbound
use cl_p2p_setup.Rpc.Protocol.{RpcError}
use cl_p2p_setup.Rpc.Handler.{
  SubstreamId, DelayQueue, OutboundSubstreamState, request_pending_response, closing, OutboundInfo,
  response_timeout,
}
use cl_p2p_setup.Rpc.Handler.Poll.{Context, Action, custom}
use cl_p2p_setup.Rpc.Handler.OutboundStreams.{
  Visited, keeps, removes, answers, received, chunks_left, accept_response,
}
use cl_p2p_setup.Rpc.Handler.Dials.{action_dials}
use cl_p2p_setup.Rpc.Handler.Table.{Carries}
use cl_p2p_setup.Rpc.Handler.Timers.{Laws, Keeps}

abbrev pub is_lost : OutboundSubstreamState → Bool
is_lost OutboundSubstreamState.poisoned = true
is_lost _ = false

module _ {timers : DelayQueue} (laws : Laws timers) {ReqId : Type 0} where
  open timers use {Queue, Key}
  open laws use {find}

  -- An entry that the loop can handle: it is not poisoned, and its timer is in the queue.
  pub record IsOpen (q : Queue) (id : SubstreamId) (info : OutboundInfo ReqId Key) : Type 0 where
    pub timed : find q info.delay_key ≡ some id
    pub whole : is_lost info.state ≡ false

  pub Keeps-Carries-IsOpen :
      (q q' : Queue) (id : SubstreamId) → Keeps laws q q' id → Carries (IsOpen q) (IsOpen q') id
  Keeps-Carries-IsOpen q q' id k j info ne h = record {
    timed = k info.delay_key j h.timed ne;
    whole = h.whole;
  }

  abbrev pub LeftOpen : Queue → SubstreamId → Option (OutboundInfo ReqId Key) → Type 0
  LeftOpen q id none = Unit
  LeftOpen q id (some info) = IsOpen q id info

  abbrev pub VisitedOpen : Queue → SubstreamId → Visited ReqId Key → Type 0
  VisitedOpen q id (keeps info events) = IsOpen q id info
  VisitedOpen q id removes = Unit
  VisitedOpen q id (answers left action) = LeftOpen q id left × (action_dials action ≡ 0)

  -- A stream is visited without a panic; its entry stays good, if it is kept, and so do others'.
  pub record Visit (q : Queue) (id : SubstreamId) (r : Outcome (Queue × Visited ReqId Key))
      : Type 0 where
    pub queue : Queue
    pub visited : Visited ReqId Key
    pub result : r ≡ returns (queue, visited)
    pub open_after : VisitedOpen queue id visited
    pub kept : Keeps laws q queue id

  unmoved :
      (q : Queue) (id : SubstreamId) (visited : Visited ReqId Key)
      → VisitedOpen q id visited
      → Visit q id (returns (q, visited))
  unmoved q id visited h = record {
    queue = q;
    visited = visited;
    result = refl;
    open_after = h;
    kept = λ k j e ne. e;
  }

  dropped :
      (q : Queue) (id : SubstreamId) (key : Key) (visited : Visited ReqId Key)
      → find q key ≡ some id
      → ((q' : Queue) → VisitedOpen q' id visited)
      → Visit q id (timers.remove_key q key >>= λ q'. returns (q', visited))
  dropped q id key visited h v =
      let (q', e, k) = laws.removed q key id h in
      record { queue = q'; visited = visited; result = rw e; open_after = v q'; kept = k }

  -- The entry after a response.
  record Accepted (q : Queue) (id : SubstreamId) (r : Outcome (Queue × OutboundInfo ReqId Key))
      : Type 0 where
    queue : Queue
    info : OutboundInfo ReqId Key
    result : r ≡ returns (queue, info)
    is_open : IsOpen queue id info
    kept : Keeps laws q queue id

  closes :
      (q : Queue) (id : SubstreamId) (info : OutboundInfo ReqId Key)
      → find q info.delay_key ≡ some id
      → Accepted q id (returns (q, record info { state = closing }))
  closes q id info h = record {
    queue = q;
    info = record info { state = closing };
    result = refl;
    is_open = record { timed = h; whole = refl };
    kept = λ k j e ne. e;
  }

  accept_response-Accepted :
      (cx : Context) (request : OutboundRequest) (response : RpcCodedResponse)
      (info : OutboundInfo ReqId Key) (q : Queue) (id : SubstreamId)
      → find q info.delay_key ≡ some id
      → Accepted q id (accept_response timers cx request response info q)
  unfolding accept_response
  accept_response-Accepted cx request response info q id h =
      elim (Bool-cases
        (ltb 1 (Outbound.expected_responses request) && not (close_after response))) [
          | inr e ↦ rw (e, accept_response) (closes q id info h)
          | inl e ↦ elim (Bool-cases (chunks_left info.remaining_chunks == 0)) [
            | inl e' ↦ rw (e, e', accept_response) (closes q id info h)
            | inr e' ↦ rw (e, e', accept_response) waits
          ]
        ]
    where
      waits : Accepted q id (
          timers.reset cx.now q info.delay_key response_timeout >>= λ q'. returns (
            q',
            record info {
              state = request_pending_response request;
              remaining_chunks = some (chunks_left info.remaining_chunks);
            },
          ))
      waits =
          let (q', e, k) = laws.was_reset cx.now q info.delay_key id response_timeout h in
          record {
            queue = q';
            info = record info {
              state = request_pending_response request;
              remaining_chunks = some (chunks_left info.remaining_chunks);
            };
            result = rw e;
            is_open = record { timed = k info.delay_key id h; whole = refl };
            kept = λ key j f ne. k key j f;
          }

  answered :
      (q : Queue) (id : SubstreamId) (r : Outcome (Queue × OutboundInfo ReqId Key))
      (act : OutboundInfo ReqId Key → Action ReqId)
      → ((info : OutboundInfo ReqId Key) → action_dials (act info) ≡ 0)
      → Accepted q id r
      → Visit q id (r >>= λ (q', info'). returns (q', answers (some info') (act info')))
  answered q id r act d a = record {
    queue = a.queue;
    visited = answers (some a.info) (act a.info);
    result = rw a.result;
    open_after = (a.is_open, d a.info);
    kept = a.kept;
  }

  pub awaiting-Visit :
      (cx : Context) (id : SubstreamId) (request : OutboundRequest) (info : OutboundInfo ReqId Key)
      (q : Queue)
      → IsOpen q id info
      → (x : Poll (Option (Result RpcCodedResponse RpcError)))
      → Visit q id (elim x [
        | pending ↦ returns (q, keeps info [])
        | ready none ↦
            (timers.remove_key q info.delay_key >>= λ q'.
            returns (q', answers none (custom (err "Incomplete response"))))
        | ready (some (err e)) ↦
            (timers.remove_key q info.delay_key >>= λ q'.
            returns (q', answers none (custom (err "Stream dropped"))))
        | ready (some (ok response)) ↦
            (accept_response timers cx request response info q >>= λ (q', info').
            returns (q', answers (some info') (custom (received info'.req_id response))))
      ])
  awaiting-Visit cx id request info q h pending = unmoved q id _ h
  awaiting-Visit cx id request info q h (ready none) = dropped q id _ _ h.timed (λ q'. (tt, refl))
  awaiting-Visit cx id request info q h (ready (some (err e))) =
      dropped q id _ _ h.timed (λ q'. (tt, refl))
  awaiting-Visit cx id request info q h (ready (some (ok response))) =
      answered q id _ (λ info'. custom (received info'.req_id response)) (λ info'. refl)
        (accept_response-Accepted cx request response info q id h.timed)

  pub closing-Visit :
      (id : SubstreamId) (info : OutboundInfo ReqId Key) (q : Queue)
      → IsOpen q id info
      → (x : Poll (Unit {0}))
      → Visit q id (elim x [
        | ready closed ↦ (timers.remove_key q info.delay_key >>= λ q'. returns (q', removes))
        | pending ↦ returns (q, keeps info [])
      ])
  closing-Visit id info q h pending = unmoved q id _ h
  closing-Visit id info q h (ready closed) = dropped q id _ _ h.timed (λ q'. tt)
