-- ===== src/Rpc/Handler/Polled.antt =====
-- rpc/handler.rs: what a part of `poll` leaves of the handler.
use cl_p2p_setup.Base.{
  ℕ, ◌+◌, ◌<◌, ◌≡◌, refl, inl, inr, Bool, false, Option, none, some, List, [], ◌∷◌, ltb,
  if◌then◌else◌, Bool-cases, ltb→lt, arith,
}
use cl_p2p_setup.Base.Swarm.{Poll, ready}
use cl_p2p_setup.Base.Machine.{
  Outcome, returns, ◌>>=◌, Profile, u32_mod, add_word, add_word-returns,
}
use cl_p2p_setup.Rpc.Outbound.{OutboundRequest}
use cl_p2p_setup.Rpc.Handler.{DelayQueue, RpcHandler, is_active}
use cl_p2p_setup.Rpc.Handler.Poll.{Context, Action, poll_dial}
use cl_p2p_setup.Rpc.Handler.InboundStreams.{poll_inbound}
use cl_p2p_setup.Rpc.Handler.OutboundStreams.{poll_outbound}
use cl_p2p_setup.Rpc.Handler.Turn.{or_else}
use cl_p2p_setup.Rpc.Handler.Timers.{Laws}
use cl_p2p_setup.Rpc.Handler.InboundLoop.{drive_all-DrivenAll}
use cl_p2p_setup.Rpc.Handler.OutboundLoop.{sweep-SweptAll}
use cl_p2p_setup.Rpc.Handler.Dials.{option_dials, answer_dials}
use cl_p2p_setup.Rpc.Handler.Invariant.{IsWhole}

module _ {timers : DelayQueue} (laws : Laws timers) {ReqId : Type 0} where
  open timers use {Queue, Key}

  -- A part of `poll` has returned: the handler is whole, and its count of dials grows by those asked.
  pub record Part (before : ℕ) (r : Outcome (RpcHandler ReqId Queue Key × Option (Action ReqId)))
      : Type 0 where
    pub handler : RpcHandler ReqId Queue Key
    pub action : Option (Action ReqId)
    pub result : r ≡ returns (handler, action)
    pub whole : IsWhole laws handler
    pub counted : handler.dial_negotiated ≡ before + option_dials action

  pub record Polled (before : ℕ) (r : Outcome (RpcHandler ReqId Queue Key × Poll (Action ReqId)))
      : Type 0 where
    pub handler : RpcHandler ReqId Queue Key
    pub answered : Poll (Action ReqId)
    pub result : r ≡ returns (handler, answered)
    pub whole : IsWhole laws handler
    pub counted : handler.dial_negotiated ≡ before + answer_dials answered

  pub or_else-Polled :
      (before : ℕ) (h : RpcHandler ReqId Queue Key) (action : Option (Action ReqId))
      (rest : RpcHandler ReqId Queue Key
        → Outcome (RpcHandler ReqId Queue Key × Poll (Action ReqId)))
      → IsWhole laws h
      → h.dial_negotiated ≡ before + option_dials action
      → Polled h.dial_negotiated (rest h)
      → Polled before (or_else (h, action) rest)
  or_else-Polled before h (some action) rest w e p = record {
    handler = h;
    answered = ready action;
    result = refl;
    whole = w;
    counted = e;
  }
  or_else-Polled before h none rest w e p = record {
    handler = p.handler;
    answered = p.answered;
    result = p.result;
    whole = p.whole;
    counted = omega (arith, e, p.counted);
  }

  pub poll_dial-Part :
      (profile : Profile) (h : RpcHandler ReqId Queue Key)
      → IsWhole laws h
      → Part h.dial_negotiated (poll_dial profile h)
  unfolding poll_dial
  poll_dial-Part profile h w = by_queue h.dial_queue w.dials.quiet
    where
      by_queue :
          (queue : List (ReqId × OutboundRequest))
          → (is_active h.state ≡ false → queue ≡ [])
          → Part h.dial_negotiated (elim queue [
            | [] ↦ returns (h, none)
            | (id, req) ∷ rest ↦
                if ltb h.dial_negotiated h.max_dial_negotiated
                then (add_word u32_mod profile h.dial_negotiated 1 >>= λ negotiated. returns (
                  record h { dial_negotiated = negotiated; dial_queue = rest },
                  some (Action.outbound_substream_request id req),
                ))
                else returns (h, none)
          ])
      by_queue [] f = record {
        handler = h;
        action = none;
        result = refl;
        whole = w;
        counted = omega arith;
      }
      by_queue ((id, req) ∷ rest) f =
          elim (Bool-cases (ltb h.dial_negotiated h.max_dial_negotiated)) [
            | inr e ↦ rw e (record {
              handler = h;
              action = none;
              result = refl;
              whole = w;
              counted = omega arith;
            })
            | inl e ↦
                rw
                  (
                    e,
                    add_word-returns u32_mod profile h.dial_negotiated 1
                        (omega (arith, ltb→lt _ _ e, w.dials.eight)),
                  )
                  (record {
                    handler = _;
                    action = _;
                    result = refl;
                    whole = record {
                      inbound = w.inbound;
                      outbound = w.outbound;
                      dials = record {
                        eight = w.dials.eight;
                        dials = omega (arith, ltb→lt _ _ e);
                        tries = w.dials.tries;
                        quiet = λ a. let full = f a in cc;
                      };
                    };
                    counted = refl;
                  })
          ]

  pub record Driven (before : ℕ) (r : Outcome (RpcHandler ReqId Queue Key)) : Type 0 where
    pub handler : RpcHandler ReqId Queue Key
    pub result : r ≡ returns handler
    pub whole : IsWhole laws handler
    pub counted : handler.dial_negotiated ≡ before

  pub poll_inbound-Driven :
      (cx : Context) (dead : Bool) (h : RpcHandler ReqId Queue Key)
      → IsWhole laws h
      → Driven h.dial_negotiated (poll_inbound timers cx dead h)
  unfolding poll_inbound
  poll_inbound-Driven cx dead h w =
      let d =
        drive_all-DrivenAll laws {ReqId = ReqId} cx dead h.inbound_substreams
          h.inbound_substreams_delay w.inbound.sound in
      rw d.result (record {
        handler = _;
        result = refl;
        whole = record {
          inbound = record {
            sound = d.sound;
            capacity = omega (arith, d.shorter, w.inbound.capacity);
            fresh = d.keys (λ j. j < h.current_inbound_substream_id) w.inbound.fresh;
          };
          outbound = w.outbound;
          dials = w.dials;
        };
        counted = refl;
      })

  pub poll_outbound-Part :
      (cx : Context) (dead : Bool) (h : RpcHandler ReqId Queue Key)
      → IsWhole laws h
      → Part h.dial_negotiated (poll_outbound timers cx dead h)
  unfolding poll_outbound
  poll_outbound-Part cx dead h w =
      let s =
        sweep-SweptAll laws cx dead h.outbound_substreams h.outbound_substreams_delay
          w.outbound.is_open in
      rw s.result (record {
        handler = _;
        action = s.swept.action;
        result = refl;
        whole = record {
          inbound = w.inbound;
          outbound = record {
            is_open = s.is_open;
            fresh = s.keys (λ j. j < h.current_outbound_substream_id) w.outbound.fresh;
          };
          dials = w.dials;
        };
        counted = omega (arith, s.quiet);
      })
