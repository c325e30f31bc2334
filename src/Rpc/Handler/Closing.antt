-- ===== src/Rpc/Handler/Closing.antt =====
-- rpc/handler.rs: how a handler shuts down, and the responses that it is given.
use cl_p2p_setup.Base.{
  ℕ, ◌+◌, ◌<◌, ◌≡◌, refl, sym, ◌∙◌, ap, subst, inl, inr, true, false, Option, none, some, ◌==◌,
  ◌&&◌, is_empty, List, [], ◌∷◌, ◌++◌, map, length, if◌then◌else◌, Bool-cases, Option-cases, ite,
  ℕ_discrete, arith,
}
use mathlib.Core.List.{append-nil}
use cl_p2p_setup.Base.Tables.{lookup, lookup-insert}
use cl_p2p_setup.Base.Swarm.{err, ready}
use cl_p2p_setup.Base.Machine.{returns, Profile}
use cl_p2p_setup.Rpc.Methods.{RpcCodedResponse}
use cl_p2p_setup.Rpc.Protocol.{RpcError}
use cl_p2p_setup.Rpc.Outbound.{OutboundRequest}
use cl_p2p_setup.Rpc.Handler.{
  SubstreamId, DelayQueue, shutting_down, deactivated, RpcHandler, InboundInfo, is_active,
  is_deactivated, still,
}
use cl_p2p_setup.Rpc.Handler.Inject.{
  shutdown, send_response, drop_requests, goodbye_queue, connection_keep_alive,
}
use cl_p2p_setup.Rpc.Handler.Poll.{Context, Action, close, poll_sleep, poll_shutdown, update_waker}
use cl_p2p_setup.Rpc.Handler.Turn.{poll, poll_rest}
use cl_p2p_setup.Rpc.Handler.Timers.{Laws}
use cl_p2p_setup.Rpc.Handler.Calls.{World, Reach, Reach-IsGood}
use cl_p2p_setup.Rpc.Handler.Events.{polls, delivered, wakers, polls-events, update_waker-lem}

drop_requests-map :
    {ReqId : Type 0} (queue : List (ReqId × OutboundRequest))
    → drop_requests queue ≡ map (λ request. err "handler error") queue
unfolding drop_requests
drop_requests-map [] = refl
drop_requests-map (dropped ∷ rest) =
    ap (λ events. err "handler error" ∷ events) (drop_requests-map rest)

-- The entry, if there is one, with the response put behind the others.
abbrev pub queued :
    {Key : Type 0} → RpcCodedResponse → Option (InboundInfo Key) → Option (InboundInfo Key)
queued response none = none
queued response (some info) =
    some (record info { pending_items = info.pending_items ++ response ∷ [] })

module _ {ReqId Queue Key : Type 0} where
  -- A shutdown of an active handler reports an error for each request in the dial queue, behind the
  -- pending events; the queue is left with the goodbye, if there is one to send, and the handler shuts
  -- down until 15 seconds later. Any other handler, and every other field, is left as it is. A second
  -- shutdown, whatever its time and its reason, changes nothing.
  pub shutdown_lem :
      (now later : ℕ) (reason other : Option ReqId) (h : RpcHandler ReqId Queue Key)
      → ((shutdown now reason h).events_out
          ≡ h.events_out
            ++ map
                (λ request. err "handler error")
                (if is_active h.state then h.dial_queue else []))
        × ((shutdown now reason h).dial_queue
            ≡ (if is_active h.state then goodbye_queue reason else h.dial_queue))
        × ((shutdown now reason h).state
            ≡ (if is_active h.state then shutting_down (now + 15_000_000_000) else h.state))
        × (shutdown now reason h ≡ record h {
          events_out = (shutdown now reason h).events_out;
          dial_queue = (shutdown now reason h).dial_queue;
          state = (shutdown now reason h).state;
        })
        × (shutdown later other (shutdown now reason h) ≡ shutdown now reason h)
  unfolding shutdown
  shutdown_lem now later reason other h = elim (Bool-cases (is_active h.state)) [
    | inl e ↦
        rw (e, shutdown)
          (
            ap (λ dropped. h.events_out ++ dropped) (drop_requests-map h.dial_queue),
            refl,
            refl,
            refl,
            refl,
          )
    | inr e ↦
        rw (e, shutdown) (sym (append-nil h.events_out), refl, refl, refl, rw (e, shutdown) refl)
  ]

  -- On a handler that is not deactivated, a response is put behind the others of its stream, if the
  -- stream is there, and the entries of all other streams are left as they are.
  pub send_response-lookup :
      (id j : SubstreamId) (response : RpcCodedResponse) (h : RpcHandler ReqId Queue Key)
      → is_deactivated h.state ≡ false
      → lookup ℕ_discrete j (send_response id response h).inbound_substreams
        ≡ ite
            (ℕ_discrete id j)
            (queued response (lookup ℕ_discrete id h.inbound_substreams))
            (lookup ℕ_discrete j h.inbound_substreams)
  unfolding send_response
  send_response-lookup id j response h e =
      elim (Option-cases (lookup ℕ_discrete id h.inbound_substreams)) [
        | inl f ↦ rw (f, send_response) (absent (ℕ_discrete id j) f)
        | inr (info, f) ↦
            rw (f, send_response, e) (lookup-insert ℕ_discrete id j _ h.inbound_substreams)
      ]
    where
      absent :
          (d : Dec (id ≡ j))
          → lookup ℕ_discrete id h.inbound_substreams ≡ none
          → lookup ℕ_discrete j h.inbound_substreams
            ≡ ite d (queued response none) (lookup ℕ_discrete j h.inbound_substreams)
      absent (yes p) f = subst (λ i. lookup ℕ_discrete i h.inbound_substreams ≡ none) p f
      absent (no n) f = refl

module _ (timers : DelayQueue) {ReqId : Type 0} where
  open timers use {Queue, Key}

  poll-sleep :
      (profile : Profile) (cx : Context) (until : ℕ) (h : RpcHandler ReqId Queue Key)
      → h.events_out ≡ []
      → h.state ≡ shutting_down until
      → cx.sleep_elapsed ≡ true
      → poll timers profile cx h
        ≡ returns (
          record h { state = deactivated; waker = wakers h.waker (cx ∷ []) },
          ready (close RpcError.error),
        )
  unfolding poll poll_rest poll_sleep
  poll-sleep profile cx until h e f g =
      let u = update_waker-lem cx h in
      woken (update_waker cx.task h) (ap RpcHandler.events_out u ∙ e) (ap RpcHandler.state u ∙ f)
      ∙ ap (λ x. returns (record x { state = deactivated }, ready (close RpcError.error))) u
    where
      sleeps :
          (h' : RpcHandler ReqId Queue Key)
          → h'.state ≡ shutting_down until
          → poll_sleep cx h' ≡ (record h' { state = deactivated }, some (close RpcError.error))
      sleeps h' k = rw (k, g, poll_sleep) refl

      woken :
          (h' : RpcHandler ReqId Queue Key)
          → h'.events_out ≡ []
          → h'.state ≡ shutting_down until
          → (elim h'.events_out [
            | event ∷ rest ↦ returns (record h' { events_out = rest }, ready (Action.custom event))
            | [] ↦ poll_rest timers profile cx h'
          ])
            ≡ returns (record h' { state = deactivated }, ready (close RpcError.error))
      woken h' n k =
          subst
            (λ events.
              (elim events [
                | event ∷ rest ↦
                    returns (record h' { events_out = rest }, ready (Action.custom event))
                | [] ↦ poll_rest timers profile cx h'
              ])
              ≡ returns (record h' { state = deactivated }, ready (close RpcError.error)))
            (sym n) (rw (sleeps h' k, poll_rest) refl)

  -- A handler that shuts down delivers its pending events, one for each call of `poll`, oldest first;
  -- the call after these, if the sleep is over by then, closes the connection and leaves the handler
  -- deactivated.
  pub polls-close :
      (profile : Profile) (cxs : List Context) (cx : Context) (until : ℕ)
      (h : RpcHandler ReqId Queue Key)
      → h.state ≡ shutting_down until
      → length cxs ≡ length h.events_out
      → cx.sleep_elapsed ≡ true
      → (h' : RpcHandler ReqId Queue Key) × (h'' : RpcHandler ReqId Queue Key) × (polls timers
            profile cxs h
          ≡ returns (h', map (delivered timers) h.events_out))
        × (poll timers profile cx h' ≡ returns (h'', ready (close RpcError.error)))
        × (h''.state ≡ deactivated)
  polls-close profile cxs cx until h e l g =
      let h' = record h { events_out = []; waker = wakers h.waker cxs } in
      (
        h',
        record h' { state = deactivated; waker = wakers h'.waker (cx ∷ []) },
        polls-events timers profile cxs h l,
        poll-sleep profile cx until h' refl e g,
        refl,
      )

module _ {timers : DelayQueue} (laws : Laws timers) {ReqId : Type 0} (profile : Profile) where
  open timers use {Queue, Key}

  -- After a failed dial that was tried again, a handler that shuts down never counts as drained,
  -- whatever else is done: the test at the end of `poll` does not close it, and it keeps the
  -- connection alive.
  pub Reach-still :
      (until : ℕ) (w : World ReqId Queue Key)
      → Reach timers profile w
      → 0 < w.retried
      → w.handler.state ≡ shutting_down until
      → (poll_shutdown w.handler ≡ none) × (connection_keep_alive w.handler ≡ still)
  unfolding poll_shutdown connection_keep_alive
  Reach-still until w r p e =
      let g = Reach-IsGood laws profile w r in
      let h = w.handler in
      let f : (is_empty h.dial_queue
            && is_empty h.outbound_substreams
            && is_empty h.inbound_substreams
            && is_empty h.events_out
            && h.dial_negotiated == 0)
          ≡ false =
        ground (arith, g.counted, p) in
      rw (e, f, poll_shutdown, connection_keep_alive) (refl, refl)
