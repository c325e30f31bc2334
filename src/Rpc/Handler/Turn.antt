-- ===== src/Rpc/Handler/Turn.antt =====
-- rpc/handler.rs: one call of `poll`.
use cl_p2p_setup.Base.{suc, Option, none, some, [], ◌∷◌}
use cl_p2p_setup.Base.Swarm.{Poll, ready, pending}
use cl_p2p_setup.Base.Machine.{Outcome, returns, ◌>>=◌, Profile}
use cl_p2p_setup.Rpc.Handler.{DelayQueue, RpcHandler, is_deactivated}
use cl_p2p_setup.Rpc.Handler.Poll.{
  Context, Action, custom, update_waker, poll_dial, poll_shutdown, poll_sleep, expire_inbound,
  expire_outbound,
}
use cl_p2p_setup.Rpc.Handler.InboundStreams.{poll_inbound}
use cl_p2p_setup.Rpc.Handler.OutboundStreams.{poll_outbound}

-- The answer of `poll`: the action with which a part returns early, or what the rest answers.
abbrev pub or_else :
    {H A : Type 0} → H × Option A → (H → Outcome (H × Poll A)) → Outcome (H × Poll A)
or_else (h, some action) rest = returns (h, ready action)
or_else (h, none) rest = rest h

abbrev pub answer : {A : Type 0} → Option A → Poll A
answer none = pending
answer (some action) = ready action

module _ (timers : DelayQueue) {ReqId : Type 0} where
  open timers use {Queue, Key, entries}

  -- The parts behind the timers.
  unfoldable pub poll_streams :
      Profile
      → Context
      → RpcHandler ReqId Queue Key
      → Outcome (RpcHandler ReqId Queue Key × Poll (Action ReqId))
  poll_streams profile cx h = do
    let dead = is_deactivated h.state
    driven ← poll_inbound timers cx dead h
    swept ← poll_outbound timers cx dead driven
    or_else swept λ h'. poll_dial profile h' >>= λ dialled.
        or_else dialled λ h''. returns (h'', answer (poll_shutdown h''))

  -- The parts behind the pending events.
  unfoldable pub poll_rest :
      Profile
      → Context
      → RpcHandler ReqId Queue Key
      → Outcome (RpcHandler ReqId Queue Key × Poll (Action ReqId))
  poll_rest profile cx h = or_else (poll_sleep cx h) λ awake.
      or_else (expire_inbound timers (suc (entries awake.inbound_substreams_delay)) cx.now awake)
        λ h'.
          or_else (expire_outbound timers (suc (entries h'.outbound_substreams_delay)) cx.now h')
            (poll_streams profile cx)

  unfoldable pub poll :
      Profile
      → Context
      → RpcHandler ReqId Queue Key
      → Outcome (RpcHandler ReqId Queue Key × Poll (Action ReqId))
  poll profile cx h =
      let h' = update_waker cx.task h in
      elim h'.events_out [
        | event ∷ rest ↦ returns (record h' { events_out = rest }, ready (custom event))
        | [] ↦ poll_rest profile cx h'
      ]
