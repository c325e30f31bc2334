-- ===== src/Rpc/Handler/Events.antt =====
-- rpc/handler.rs: the events that a handler has pending.
use cl_p2p_setup.Base.{
  ℕ, ◌≡◌, refl, sym, ◌∙◌, ap, subst, inl, inr, Option, none, some, List, [], ◌∷◌, map, length, ◌==◌,
  true, Bool-cases, Option-cases, arith,
}
use cl_p2p_setup.Base.Swarm.{Poll, ready}
use cl_p2p_setup.Base.Machine.{Outcome, returns, ◌>>=◌, Profile}
use cl_p2p_setup.Rpc.Handler.{DelayQueue, HandlerEvent, RpcHandler}
use cl_p2p_setup.Rpc.Handler.Poll.{Context, Action, custom, update_waker}
use cl_p2p_setup.Rpc.Handler.Turn.{poll, poll_rest}

module _ (timers : DelayQueue) {ReqId : Type 0} where
  open timers use {Queue, Key}

  -- Successive calls of `poll`, with their answers.
  unfoldable pub polls :
      Profile
      → List Context
      → RpcHandler ReqId Queue Key
      → Outcome (RpcHandler ReqId Queue Key × List (Poll (Action ReqId)))
  polls profile [] h = returns (h, [])
  polls profile (cx ∷ cxs) h = do
    (h', answered) ← poll timers profile cx h
    (h'', later) ← polls profile cxs h'
    returns (h'', answered ∷ later)

  abbrev pub delivered : HandlerEvent ReqId → Poll (Action ReqId)
  delivered event = ready (custom event)

-- The waker after these calls of `poll`: the one that was there, or that of the first call.
abbrev pub wakers : Option ℕ → List Context → Option ℕ
wakers (some waker) cxs = some waker
wakers none [] = none
wakers none (cx ∷ cxs) = some cx.task

wakers-nil : (waker : Option ℕ) → wakers waker [] ≡ waker
wakers-nil (some waker) = refl
wakers-nil none = refl

wakers-cons :
    (waker : Option ℕ) (cx : Context) (cxs : List Context)
    → wakers (wakers waker (cx ∷ [])) cxs ≡ wakers waker (cx ∷ cxs)
wakers-cons (some waker) cx cxs = refl
wakers-cons none cx cxs = refl

module _ {ReqId Queue Key : Type 0} where
  pub update_waker-lem :
      (cx : Context) (h : RpcHandler ReqId Queue Key)
      → update_waker cx.task h ≡ record h { waker = wakers h.waker (cx ∷ []) }
  unfolding update_waker
  update_waker-lem cx h = elim (Option-cases h.waker) [
    | inl e ↦ rw (e, update_waker) refl
    | inr (waker, e) ↦ elim (Bool-cases (waker == cx.task)) [
      | inl e' ↦
          rw (e, e', update_waker)
            (ap (λ x. record h { waker = some x }) (sym (same waker cx.task e')))
      | inr e' ↦ rw (e, e', update_waker) (ap (λ x. record h { waker = x }) e)
    ]
  ]
    where
      same : (a b : ℕ) → a == b ≡ true → a ≡ b
      same a b e = ground arith

module _ (timers : DelayQueue) {ReqId : Type 0} where
  open timers use {Queue, Key}

  poll-event :
      (profile : Profile) (cx : Context) (h : RpcHandler ReqId Queue Key)
      (event : HandlerEvent ReqId) (rest : List (HandlerEvent ReqId))
      → h.events_out ≡ event ∷ rest
      → poll timers profile cx h
        ≡ returns (
          record h { events_out = rest; waker = wakers h.waker (cx ∷ []) },
          delivered timers event,
        )
  unfolding poll
  poll-event profile cx h event rest e =
      let f = update_waker-lem cx h in
      served (update_waker cx.task h) (ap RpcHandler.events_out f ∙ e)
      ∙ ap (λ x. returns (record x { events_out = rest }, delivered timers event)) f
    where
      served :
          (h' : RpcHandler ReqId Queue Key)
          → h'.events_out ≡ event ∷ rest
          → (elim h'.events_out [
            | event ∷ rest ↦ returns (record h' { events_out = rest }, ready (custom event))
            | [] ↦ poll_rest timers profile cx h'
          ])
            ≡ returns (record h' { events_out = rest }, delivered timers event)
      served h' g =
          subst
            (λ events.
              (elim events [
                | event ∷ rest ↦ returns (record h' { events_out = rest }, ready (custom event))
                | [] ↦ poll_rest timers profile cx h'
              ])
              ≡ returns (record h' { events_out = rest }, delivered timers event))
            (sym g) refl

  -- As many calls of `poll` as events are pending deliver them, oldest first, and do nothing else:
  -- but for the events and the waker, the handler is the same, and a waker that it has stays, whatever
  -- tasks make the calls; if it has none, that of the first call stays.
  pub polls-events :
      (profile : Profile) (cxs : List Context) (h : RpcHandler ReqId Queue Key)
      → length cxs ≡ length h.events_out
      → polls timers profile cxs h
        ≡ returns (
          record h { events_out = []; waker = wakers h.waker cxs },
          map (delivered timers) h.events_out,
        )
  unfolding polls
  polls-events profile cxs h e = by_events cxs h.events_out h refl e
    where
      by_events :
          (cxs : List Context) (events : List (HandlerEvent ReqId)) (h : RpcHandler ReqId Queue Key)
          → h.events_out ≡ events
          → length cxs ≡ length events
          → polls timers profile cxs h
            ≡ returns (
              record h { events_out = []; waker = wakers h.waker cxs },
              map (delivered timers) events,
            )
      by_events [] [] h e l =
          rw (wakers-nil h.waker) (ap (λ x. returns (record h { events_out = x }, [])) e)
      by_events [] (event ∷ events) h e l = ground arith
      by_events (cx ∷ cxs) [] h e l = ground arith
      by_events (cx ∷ cxs) (event ∷ events) h e l =
          let h' = record h { events_out = events; waker = wakers h.waker (cx ∷ []) } in
          rw
            (
              poll-event profile cx h event events e,
              polls,
              by_events cxs events h' refl (omega (arith, l)),
              wakers-cons h.waker cx cxs,
            )
            refl
