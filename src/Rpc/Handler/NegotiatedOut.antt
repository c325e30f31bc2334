-- ===== src/Rpc/Handler/NegotiatedOut.antt =====
-- rpc/handler.rs: a dialled stream is taken into the handler.
use cl_p2p_setup.Base.{
  ℕ, ◌+◌, ◌-◌, ◌<◌, refl, inl, inr, [], ◌∷◌, ◌++◌, ltb, if◌then◌else◌, Bool-cases, arith,
}
use cl_p2p_setup.Base.Lists.{All-map}
use cl_p2p_setup.Base.Machine.{Profile, u32_mod, usize_mod, add_word-returns, sub_word-returns}
use cl_p2p_setup.Base.Swarm.{err}
use cl_p2p_setup.Rpc.Outbound.{OutboundRequest}
use cl_p2p_setup.Rpc.Outbound
use cl_p2p_setup.Rpc.Handler.{DelayQueue, RpcHandler, is_deactivated, response_timeout}
use cl_p2p_setup.Rpc.Handler.Inject.{register_outbound, inject_fully_negotiated_outbound}
use cl_p2p_setup.Rpc.Handler.Table.{insert-IsTable, insert-AllKeys}
use cl_p2p_setup.Rpc.Handler.Timers.{Laws}
use cl_p2p_setup.Rpc.Handler.Invariant.{IsWhole, Finished}

module _ {timers : DelayQueue} (laws : Laws timers) {ReqId : Type 0} where
  open timers use {Queue, Key}

  register_outbound-Finished :
      (profile : Profile) (now : ℕ) (id : ReqId) (req : OutboundRequest) (expected : ℕ)
      (h : RpcHandler ReqId Queue Key)
      → IsWhole laws h
      → h.current_outbound_substream_id + 1 < usize_mod
      → Finished laws h.dial_negotiated (register_outbound timers profile now id req expected h)
  unfolding register_outbound
  register_outbound-Finished profile now id req expected h w room =
      let current = h.current_outbound_substream_id in
      let q = h.outbound_substreams_delay in
      rw (add_word-returns usize_mod profile current 1 room, register_outbound)
        (record {
          handler = _;
          result = refl;
          whole = record {
            inbound = w.inbound;
            outbound = record {
              is_open =
                  insert-IsTable _ _ current _ _
                    (λ j v ne s. record {
                      timed =
                          laws.insert_keeps now q current response_timeout v.delay_key j s.timed;
                      whole = s.whole;
                    })
                    (record { timed = laws.inserted now q current response_timeout; whole = refl })
                    w.outbound.is_open;
              fresh =
                  insert-AllKeys (λ j. j < current + 1) current _ h.outbound_substreams
                    (omega arith)
                    (All-map _ _ h.outbound_substreams (λ e lt. omega (arith, lt))
                      w.outbound.fresh);
            };
            dials = w.dials;
          };
          counted = refl;
        })

  pub inject_fully_negotiated_outbound-Finished :
      (profile : Profile) (now : ℕ) (id : ReqId) (req : OutboundRequest)
      (h : RpcHandler ReqId Queue Key)
      → IsWhole laws h
      → 0 < h.dial_negotiated
      → h.current_outbound_substream_id + 1 < usize_mod
      → Finished laws
          (h.dial_negotiated - 1)
          (inject_fully_negotiated_outbound timers profile now (id, req) h)
  unfolding inject_fully_negotiated_outbound
  inject_fully_negotiated_outbound-Finished profile now id req h w p room =
      rw (sub_word-returns u32_mod profile h.dial_negotiated 1 p, inject_fully_negotiated_outbound)
        (elim (Bool-cases (ltb 0 (Outbound.expected_responses req))) [
          | inl e ↦ rw e (
              register_outbound-Finished profile now id req (Outbound.expected_responses req) told
                whole_told room)
          | inr e ↦
              rw e (record { handler = told; result = refl; whole = whole_told; counted = refl })
        ])
    where
      told : RpcHandler ReqId Queue Key
      told = record h {
        dial_negotiated = h.dial_negotiated - 1;
        events_out =
            if is_deactivated h.state
            then h.events_out ++ err "HandlerState::Deactivated" ∷ []
            else h.events_out;
      }

      whole_told : IsWhole laws told
      whole_told = record {
        inbound = w.inbound;
        outbound = w.outbound;
        dials = record {
          eight = w.dials.eight;
          dials = omega (arith, w.dials.dials);
          tries = w.dials.tries;
          quiet = w.dials.quiet;
        };
      }
