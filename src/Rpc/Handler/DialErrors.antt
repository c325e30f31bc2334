-- ===== src/Rpc/Handler/DialErrors.antt =====
-- rpc/handler.rs: a dial has failed.
use cl_p2p_setup.Base.{ℕ, ◌+◌, ◌-◌, ◌<◌, ◌≤◌, refl, inl, inr, ltb, Bool-cases, ltb→lt, arith}
use cl_p2p_setup.Base.Machine.{Profile, u8_mod, u32_mod, add_word-returns, sub_word-returns}
use cl_p2p_setup.Rpc.Outbound.{OutboundRequest}
use cl_p2p_setup.Rpc.Handler.{DelayQueue, RpcHandler}
use cl_p2p_setup.Rpc.Handler.Inject.{send_request}
use cl_p2p_setup.Rpc.Handler.Timers.{Laws}
use cl_p2p_setup.Rpc.Handler.Invariant.{IsWhole, Finished}
use cl_p2p_setup.Rpc.Handler.{UpgradeError, apply, other, io_error_retries}
use cl_p2p_setup.Rpc.Handler.Inject.{give_up_dial, inject_dial_upgrade_error}
use cl_p2p_setup.Rpc.Handler.Dials.{send_request-dial_negotiated, dials_after, DialFields}
use cl_p2p_setup.Rpc.Handler.Invariant.{send_request-IsWhole}

module _ {timers : DelayQueue} (laws : Laws timers) {ReqId : Type 0} where
  open timers use {Queue, Key}

  with_dials :
      (h : RpcHandler ReqId Queue Key) (negotiated retries : ℕ)
      → IsWhole laws h
      → negotiated ≤ h.dial_negotiated
      → retries < io_error_retries
      → DialFields negotiated h.max_dial_negotiated retries h.state h.dial_queue
  with_dials h negotiated retries w le lt = record {
    eight = w.dials.eight;
    dials = omega (arith, w.dials.dials);
    tries = lt;
    quiet = w.dials.quiet;
  }

  give_up_dial-Finished :
      (profile : Profile) (h : RpcHandler ReqId Queue Key) (retries : ℕ)
      → IsWhole laws h
      → 0 < h.dial_negotiated
      → Finished laws
          (h.dial_negotiated - 1)
          (give_up_dial profile (record h { outbound_io_error_retries = retries }))
  unfolding give_up_dial
  give_up_dial-Finished profile h retries w p =
      rw (sub_word-returns u32_mod profile h.dial_negotiated 1 p, give_up_dial)
        (record {
          handler = _;
          result = refl;
          whole = record {
            inbound = w.inbound;
            outbound = w.outbound;
            dials = with_dials h (h.dial_negotiated - 1) 0 w (omega arith) (omega arith);
          };
          counted = refl;
        })

  pub inject_dial_upgrade_error-Finished :
      (profile : Profile) (request : ReqId × OutboundRequest) (error : UpgradeError)
      (h : RpcHandler ReqId Queue Key)
      → IsWhole laws h
      → 0 < h.dial_negotiated
      → Finished laws (dials_after error h) (inject_dial_upgrade_error profile request error h)
  unfolding inject_dial_upgrade_error give_up_dial
  inject_dial_upgrade_error-Finished profile (id, req) other h w p =
      give_up_dial-Finished profile h h.outbound_io_error_retries w p
  inject_dial_upgrade_error-Finished profile (id, req) apply h w p =
      rw
        (add_word-returns u8_mod profile h.outbound_io_error_retries 1
          (omega (arith, w.dials.tries)))
        (elim (Bool-cases (ltb (h.outbound_io_error_retries + 1) io_error_retries)) [
          | inl e ↦ rw e (record {
            handler = send_request id req counted;
            result = refl;
            whole = send_request-IsWhole laws id req counted (record {
              inbound = w.inbound;
              outbound = w.outbound;
              dials = with_dials h h.dial_negotiated _ w (omega arith) (ltb→lt _ _ e);
            });
            counted = send_request-dial_negotiated id req counted;
          })
          | inr e ↦ rw e (give_up_dial-Finished profile h (h.outbound_io_error_retries + 1) w p)
        ])
    where
      counted : RpcHandler ReqId Queue Key
      counted = record h { outbound_io_error_retries = h.outbound_io_error_retries + 1 }
