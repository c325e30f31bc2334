-- ===== src/Rpc/Handler/Negotiated.antt =====
-- rpc/handler.rs: a negotiated stream is taken into the handler.
use cl_p2p_setup.Base.{
  ℕ, suc, ◌+◌, ◌<◌, refl, inl, inr, none, [], ◌∷◌, ◌++◌, length, ltb, Bool-cases, ltb→lt, arith,
}
use cl_p2p_setup.Base.Lists.{All-map}
use cl_p2p_setup.Base.Machine.{returns, ◌>>=◌, Profile, usize_mod, add_word, add_word-returns}
use cl_p2p_setup.Base.Swarm.{ok, err}
use cl_p2p_setup.Rpc.Inbound.{InboundRequest}
use cl_p2p_setup.Rpc.Inbound
use cl_p2p_setup.Rpc.Handler.{
  DelayQueue, RpcHandler, RpcReceived, is_active, max_inbound_substreams, response_timeout,
}
use cl_p2p_setup.Rpc.Handler.Inject.{
  shutdown, register_inbound, report_request, inject_fully_negotiated_inbound, is_goodbye,
}
use cl_p2p_setup.Rpc.Handler.Table.{insert-IsTable, insert-AllKeys, length-insert_le}
use cl_p2p_setup.Rpc.Handler.Timers.{Laws}
use cl_p2p_setup.Rpc.Handler.InboundSafety.{IsSound-under}
use cl_p2p_setup.Rpc.Handler.Dials.{DialsWhole, shutdown-DialsWhole, shutdown-dial_negotiated}
use cl_p2p_setup.Rpc.Handler.Invariant.{
  InboundFields, InboundWhole, OutboundWhole, IsWhole, Finished, recount, shutdown-IsWhole,
}

module _ {timers : DelayQueue} (laws : Laws timers) {ReqId : Type 0} where
  open timers use {Queue, Key}

  -- Between the insertion of a stream and the step of the counter.
  record Registered (h : RpcHandler ReqId Queue Key) : Type 0 where
    inbound :
        InboundFields laws h.inbound_substreams_delay h.inbound_substreams
          (suc h.current_inbound_substream_id)
    outbound : OutboundWhole laws h
    dials : DialsWhole h
    room : h.current_inbound_substream_id + 1 < usize_mod

  shutdown-Registered :
      (now : ℕ) (h : RpcHandler ReqId Queue Key) → Registered h → Registered (shutdown now none h)
  unfolding shutdown
  shutdown-Registered now h w = elim (Bool-cases (is_active h.state)) [
    | inl e ↦ record {
      inbound = rw e w.inbound;
      outbound = rw e w.outbound;
      dials = shutdown-DialsWhole now h w.dials;
      room = rw e w.room;
    }
    | inr e ↦ rw e w
  ]

  register_inbound-InboundFields :
      (now : ℕ) (req : InboundRequest) (expected : ℕ) (h : RpcHandler ReqId Queue Key)
      → InboundWhole laws h
      → length h.inbound_substreams < max_inbound_substreams
      → InboundFields laws
          (register_inbound timers now req expected h).inbound_substreams_delay
          (register_inbound timers now req expected h).inbound_substreams
          (suc h.current_inbound_substream_id)
  unfolding register_inbound
  register_inbound-InboundFields now req expected h w room =
      let id = h.current_inbound_substream_id in
      let q = h.inbound_substreams_delay in
      record {
        sound =
            insert-IsTable _ _ id _ _
              (λ j v ne s.
                IsSound-under laws _ _ j v
                  (λ k e. laws.insert_keeps now q id response_timeout k j e) s)
              (record { timed = laws.inserted now q id response_timeout; whole = refl }) w.sound;
        capacity = omega (arith, room, length-insert_le id _ h.inbound_substreams);
        fresh =
            insert-AllKeys (λ j. j < suc id) id _ h.inbound_substreams (omega arith)
              (All-map _ _ h.inbound_substreams (λ e lt. omega (arith, lt)) w.fresh);
      }

  counted :
      (profile : Profile) (req : InboundRequest) (h : RpcHandler ReqId Queue Key)
      → Registered h
      → Finished laws h.dial_negotiated (
          add_word usize_mod profile h.current_inbound_substream_id 1 >>= λ next.
          returns (record h {
            events_out =
                h.events_out ++ ok (RpcReceived.request h.current_inbound_substream_id req) ∷ [];
            current_inbound_substream_id = next;
          }))
  counted profile req h w =
      rw (add_word-returns usize_mod profile h.current_inbound_substream_id 1 w.room) (record {
        handler = _;
        result = refl;
        whole = record {
          inbound = record {
            sound = w.inbound.sound;
            capacity = w.inbound.capacity;
            fresh = All-map _ _ h.inbound_substreams (λ e lt. omega (arith, lt)) w.inbound.fresh;
          };
          outbound = w.outbound;
          dials = w.dials;
        };
        counted = refl;
      })

  report_request-Finished :
      (profile : Profile) (now : ℕ) (req : InboundRequest) (h : RpcHandler ReqId Queue Key)
      → Registered h
      → Finished laws h.dial_negotiated (report_request timers profile now req h)
  unfolding report_request
  report_request-Finished profile now req h w = elim (Bool-cases (is_goodbye req)) [
    | inl e ↦
        rw (e, report_request)
          (recount laws _ _ _ (shutdown-dial_negotiated now none h)
            (counted profile req (shutdown now none h) (shutdown-Registered now h w)))
    | inr e ↦ rw (e, report_request) (counted profile req h w)
  ]

  pub inject_fully_negotiated_inbound-Finished :
      (profile : Profile) (now : ℕ) (req : InboundRequest) (h : RpcHandler ReqId Queue Key)
      → IsWhole laws h
      → h.current_inbound_substream_id + 1 < usize_mod
      → Finished laws h.dial_negotiated (inject_fully_negotiated_inbound timers profile now req h)
  unfolding inject_fully_negotiated_inbound register_inbound
  inject_fully_negotiated_inbound-Finished profile now req h w room =
      elim (Bool-cases (is_active h.state)) [
        | inr e ↦
            rw (e, inject_fully_negotiated_inbound)
              (record { handler = h; result = refl; whole = w; counted = refl })
        | inl e ↦ elim (Bool-cases (ltb 0 (Inbound.expected_responses req))) [
          | inr e' ↦
              rw (e, e', inject_fully_negotiated_inbound)
                (report_request-Finished profile now req h (record {
                  inbound = record {
                    sound = w.inbound.sound;
                    capacity = w.inbound.capacity;
                    fresh =
                        All-map _ _ h.inbound_substreams (λ e lt. omega (arith, lt))
                          w.inbound.fresh;
                  };
                  outbound = w.outbound;
                  dials = w.dials;
                  room = room;
                }))
          | inl e' ↦ elim (Bool-cases (ltb (length h.inbound_substreams) max_inbound_substreams)) [
            | inl e'' ↦
                rw (e, e', e'', inject_fully_negotiated_inbound)
                  (report_request-Finished profile now req _ (record {
                    inbound =
                        register_inbound-InboundFields now req (Inbound.expected_responses req) h
                          w.inbound (ltb→lt _ _ e'');
                    outbound = w.outbound;
                    dials = w.dials;
                    room = room;
                  }))
            | inr e'' ↦
                rw (e, e', e'', inject_fully_negotiated_inbound)
                  (record {
                    handler = _;
                    result = refl;
                    whole =
                        shutdown-IsWhole laws now
                          (record h { events_out = h.events_out ++ err "HandlerRejected" ∷ [] })
                          (record { inbound = w.inbound; outbound = w.outbound; dials = w.dials });
                    counted =
                        shutdown-dial_negotiated now none
                          (record h { events_out = h.events_out ++ err "HandlerRejected" ∷ [] });
                  })
          ]
        ]
      ]
