-- ===== src/Rpc/Handler/Reach.antt =====
-- rpc/handler.rs: what holds of a handler after any calls of the swarm.
use cl_p2p_setup.Base.{[], ◌+◌, ◌≤◌, ◌≡◌, sym, ◌∙◌, subst, true, false, length, arith}
use cl_p2p_setup.Base.Machine.{returns, Profile, returns-injective}
use cl_p2p_setup.Rpc.Handler.{DelayQueue, is_active, max_inbound_substreams}
use cl_p2p_setup.Rpc.Handler.Timers.{Laws}
use cl_p2p_setup.Rpc.Handler.Calls.{
  Call, World, is_allowed, call, Reach, IsGood, call-Returned, Reach-IsGood,
}

module _ {timers : DelayQueue} (laws : Laws timers) {ReqId : Type 0} (profile : Profile) where
  open timers use {Queue, Key}

  -- On a handler that allowed calls have led to, an allowed call returns, whatever the streams and
  -- the timers answer: it does not panic, and its result is again one in which every stream can be
  -- driven and every counted dial is under way or retried.
  pub Reach-returns :
      (c : Call ReqId) (w : World ReqId Queue Key)
      → Reach timers profile w
      → is_allowed c w ≡ true
      → (w' : World ReqId Queue Key) × (call timers profile c w ≡ returns w') × IsGood laws w'
  Reach-returns c w r a =
      let p = call-Returned laws profile c w (Reach-IsGood laws profile w r) a in
      (p.world, p.result, p.good)

  -- On a handler that allowed calls have led to, at most 32 streams are inbound, and the counted
  -- dials, at most 8, are those under way and those that failed and were tried again.
  pub Reach-bounds :
      (w : World ReqId Queue Key)
      → Reach timers profile w
      → (length w.handler.inbound_substreams ≤ max_inbound_substreams)
        × (w.under_way + w.retried ≤ 8)
        × (w.handler.dial_negotiated ≡ w.under_way + w.retried)
  Reach-bounds w r =
      let g = Reach-IsGood laws profile w r in
      (
        g.whole.inbound.capacity,
        omega (arith, g.counted, g.whole.dials.dials, g.whole.dials.eight),
        g.counted,
      )

  -- On a handler that allowed calls have led to and that is not active any more, no request waits to be
  -- dialled.
  pub Reach-dial_queue :
      (w : World ReqId Queue Key)
      → Reach timers profile w
      → is_active w.handler.state ≡ false
      → w.handler.dial_queue ≡ []
  Reach-dial_queue w r a = (Reach-IsGood laws profile w r).whole.dials.quiet a

  -- When 8 dials have failed and been tried again, no later call starts a dial: none is ever under
  -- way again.
  pub Reach-starves :
      (c : Call ReqId) (w w' : World ReqId Queue Key)
      → Reach timers profile w
      → w.retried ≡ 8
      → is_allowed c w ≡ true
      → call timers profile c w ≡ returns w'
      → (w'.retried ≡ 8) × (w'.under_way ≡ 0)
  Reach-starves c w w' r e a f =
      let p = call-Returned laws profile c w (Reach-IsGood laws profile w r) a in
      let g = subst (IsGood laws) (returns-injective (sym p.result ∙ f)) p.good in
      let m =
        subst (λ (v : World ReqId Queue Key). w.retried ≤ v.retried)
          (returns-injective (sym p.result ∙ f)) p.more_retried in
      (
        omega (arith, e, m, g.counted, g.whole.dials.dials, g.whole.dials.eight),
        omega (arith, e, m, g.counted, g.whole.dials.dials, g.whole.dials.eight),
      )
