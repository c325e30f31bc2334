-- ===== src/Rpc/Handler/PollSafety.antt =====
-- rpc/handler.rs: the whole of `poll`.
use cl_p2p_setup.Base.{
  ℕ, ◌+◌, ◌≡◌, refl, ap, ◌∙◌, inl, inr, ◌⊎◌, subst, Option, List, [], ◌∷◌, ◌==◌, ◌&&◌, is_empty,
  Bool-cases, Option-cases, arith,
}
use cl_p2p_setup.Base.Swarm.{ready}
use cl_p2p_setup.Base.Machine.{Outcome, returns, ◌>>=◌, Profile}
use cl_p2p_setup.Rpc.Handler.{
  DelayQueue, HandlerState, active, shutting_down, deactivated, RpcHandler, is_deactivated,
  HandlerEvent,
}
use cl_p2p_setup.Rpc.Handler.Poll.{Context, Action, custom, update_waker, poll_shutdown, poll_sleep}
use cl_p2p_setup.Rpc.Handler.Turn.{or_else, answer, poll_streams, poll_rest, poll}
use cl_p2p_setup.Rpc.Handler.Timers.{Laws}
use cl_p2p_setup.Rpc.Handler.Dials.{option_dials, answer_dials}
use cl_p2p_setup.Rpc.Handler.Invariant.{IsWhole}
use cl_p2p_setup.Rpc.Handler.TimersDue.{expire_inbound-IsWhole, expire_outbound-IsWhole}
use cl_p2p_setup.Rpc.Handler.DialsKept.{expire_inbound-dials, expire_outbound-dials}
use cl_p2p_setup.Rpc.Handler.Polled.{
  Part, Polled, or_else-Polled, poll_dial-Part, poll_inbound-Driven, poll_outbound-Part,
}

HandlerState-cases :
    (s : HandlerState)
    → (s ≡ active) ⊎ ((until : ℕ) × (s ≡ shutting_down until)) ⊎ (s ≡ deactivated)
HandlerState-cases active = inl refl
HandlerState-cases (shutting_down until) = inr (inl (until, refl))
HandlerState-cases deactivated = inr (inr refl)

module _ {timers : DelayQueue} (laws : Laws timers) {ReqId : Type 0} where
  open timers use {Queue, Key, entries}

  poll_shutdown-quiet :
      (h : RpcHandler ReqId Queue Key) → answer_dials (answer (poll_shutdown h)) ≡ 0
  unfolding poll_shutdown
  poll_shutdown-quiet h = elim (HandlerState-cases h.state) [
    | inl e ↦ rw (e, poll_shutdown) refl
    | inr (inr e) ↦ rw (e, poll_shutdown) refl
    | inr (inl (until, e)) ↦
        elim (Bool-cases (
          is_empty h.dial_queue
          && is_empty h.outbound_substreams
          && is_empty h.inbound_substreams
          && is_empty h.events_out
          && h.dial_negotiated == 0)) [
            | inl e' ↦ rw (e, e', poll_shutdown) refl
            | inr e' ↦ rw (e, e', poll_shutdown) refl
          ]
  ]

  dialled-Polled :
      (before : ℕ) (r : Outcome (RpcHandler ReqId Queue Key × Option (Action ReqId)))
      → Part laws before r
      → Polled laws before
          (r >>= λ dialled. or_else dialled λ h''. returns (h'', answer (poll_shutdown h'')))
  dialled-Polled before r p = rw p.result (
      or_else-Polled laws before p.handler p.action _ p.whole p.counted (record {
        handler = p.handler;
        answered = answer (poll_shutdown p.handler);
        result = refl;
        whole = p.whole;
        counted = omega (arith, poll_shutdown-quiet p.handler);
      }))

  poll_streams-Polled :
      (profile : Profile) (cx : Context) (h : RpcHandler ReqId Queue Key)
      → IsWhole laws h
      → Polled laws h.dial_negotiated (poll_streams timers profile cx h)
  unfolding poll_streams
  poll_streams-Polled profile cx h w =
      let driven = poll_inbound-Driven laws cx (is_deactivated h.state) h w in
      let swept = poll_outbound-Part laws cx (is_deactivated h.state) driven.handler driven.whole in
      rw (driven.result, swept.result)
        (or_else-Polled laws h.dial_negotiated swept.handler swept.action _ swept.whole
          (swept.counted ∙ ap (λ n. n + option_dials swept.action) driven.counted)
          (dialled-Polled _ _ (poll_dial-Part laws profile swept.handler swept.whole)))

  poll_sleep-IsWhole :
      (cx : Context) (h : RpcHandler ReqId Queue Key)
      → IsWhole laws h
      → IsWhole laws (poll_sleep cx h).0
        × ((poll_sleep cx h).0.dial_negotiated
            ≡ h.dial_negotiated + option_dials (poll_sleep cx h).1)
  unfolding poll_sleep
  poll_sleep-IsWhole cx h w = elim (HandlerState-cases h.state) [
    | inl e ↦ rw (e, poll_sleep) (w, omega arith)
    | inr (inr e) ↦ rw (e, poll_sleep) (w, omega arith)
    | inr (inl (until, e)) ↦ elim (Bool-cases cx.sleep_elapsed) [
      | inl e' ↦
          rw (e, e', poll_sleep)
            (
              record {
                inbound = w.inbound;
                outbound = w.outbound;
                dials = record {
                  eight = w.dials.eight;
                  dials = w.dials.dials;
                  tries = w.dials.tries;
                  quiet = λ a. w.dials.quiet (rw e refl);
                };
              },
              omega arith,
            )
      | inr e' ↦ rw (e, e', poll_sleep) (w, omega arith)
    ]
  ]

  update_waker-IsWhole :
      (task : ℕ) (h : RpcHandler ReqId Queue Key)
      → IsWhole laws h
      → IsWhole laws (update_waker task h)
        × ((update_waker task h).dial_negotiated ≡ h.dial_negotiated)
  unfolding update_waker
  update_waker-IsWhole task h w = elim (Option-cases h.waker) [
    | inl e ↦
        rw (e, update_waker)
          (record { inbound = w.inbound; outbound = w.outbound; dials = w.dials }, refl)
    | inr (waker, e) ↦ elim (Bool-cases (waker == task)) [
      | inl e' ↦
          rw (e, e', update_waker)
            (record { inbound = w.inbound; outbound = w.outbound; dials = w.dials }, refl)
      | inr e' ↦ rw (e, e', update_waker) (w, refl)
    ]
  ]

  poll_rest-Polled :
      (profile : Profile) (cx : Context) (h : RpcHandler ReqId Queue Key)
      → IsWhole laws h
      → Polled laws h.dial_negotiated (poll_rest timers profile cx h)
  unfolding poll_rest
  poll_rest-Polled profile cx h w =
      let (w1, e1) = poll_sleep-IsWhole cx h w in
      or_else-Polled laws _ _ _ _ w1 e1 (
        or_else-Polled laws _ _ _ _ (expire_inbound-IsWhole laws _ cx.now _ w1)
          (expire_inbound-dials timers _ cx.now _)
          (or_else-Polled laws _ _ _ _
            (expire_outbound-IsWhole laws _ cx.now _ (expire_inbound-IsWhole laws _ cx.now _ w1))
            (expire_outbound-dials timers _ cx.now _)
            (poll_streams-Polled profile cx _ (
              expire_outbound-IsWhole laws _ cx.now _
                (expire_inbound-IsWhole laws _ cx.now _ w1)))))

  pub poll-Polled :
      (profile : Profile) (cx : Context) (h : RpcHandler ReqId Queue Key)
      → IsWhole laws h
      → Polled laws h.dial_negotiated (poll timers profile cx h)
  unfolding poll
  poll-Polled profile cx h w =
      let (w', e) = update_waker-IsWhole cx.task h w in
      by_events (update_waker cx.task h) (update_waker cx.task h).events_out w' e
    where
      by_events :
          (h' : RpcHandler ReqId Queue Key) (events : List (HandlerEvent ReqId))
          → IsWhole laws h'
          → h'.dial_negotiated ≡ h.dial_negotiated
          → Polled laws h.dial_negotiated (elim events [
            | event ∷ rest ↦ returns (record h' { events_out = rest }, ready (custom event))
            | [] ↦ poll_rest timers profile cx h'
          ])
      by_events h' [] w' e =
          subst (λ n. Polled laws {ReqId = ReqId} n (poll_rest timers profile cx h')) e
            (poll_rest-Polled profile cx h' w')
      by_events h' (event ∷ rest) w' e = record {
        handler = record h' { events_out = rest };
        answered = ready (custom event);
        result = refl;
        whole = record { inbound = w'.inbound; outbound = w'.outbound; dials = w'.dials };
        counted = omega (arith, e);
      }
