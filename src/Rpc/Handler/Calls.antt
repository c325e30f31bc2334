-- ===== src/Rpc/Handler/Calls.antt =====
-- rpc/handler.rs: a handler under the calls that the swarm makes, in any order.
use cl_p2p_setup.Base.{
  ℕ, ◌+◌, ◌-◌, ◌<◌, ◌≤◌, ◌≡◌, refl, sym, ◌∙◌, subst, inl, inr, Bool, true, ◌&&◌, ltb, if◌then◌else◌,
  Bool-cases, Option-cases, ℕ_discrete, ltb→lt, arith,
}
use cl_p2p_setup.Base.Machine.{Outcome, returns, ◌>>=◌, Profile, usize_mod, returns-injective}
use cl_p2p_setup.Base.Tables.{lookup}
use cl_p2p_setup.Rpc.Methods.{RpcCodedResponse}
use cl_p2p_setup.Rpc.Inbound.{InboundRequest}
use cl_p2p_setup.Rpc.Outbound.{OutboundRequest}
use cl_p2p_setup.Rpc.Handler.{
  SubstreamId, DelayQueue, is_deactivated, RpcHandler, RpcSend, UpgradeError,
}
use cl_p2p_setup.Rpc.Handler.Inject.{
  send_response, inject_event, inject_dial_upgrade_error, inject_fully_negotiated_inbound,
  inject_fully_negotiated_outbound, new,
}
use cl_p2p_setup.Rpc.Handler.Poll.{Context}
use cl_p2p_setup.Rpc.Handler.Turn.{poll}
use cl_p2p_setup.Rpc.Handler.Timers.{Laws}
use cl_p2p_setup.Rpc.Handler.Dials.{
  answer_dials, is_retried, dials_after-retried, dials_after-given_up, send_request-dial_negotiated,
}
use cl_p2p_setup.Rpc.Handler.Invariant.{IsWhole, inject_event-IsWhole, new-IsWhole}
use cl_p2p_setup.Rpc.Handler.Negotiated.{inject_fully_negotiated_inbound-Finished}
use cl_p2p_setup.Rpc.Handler.NegotiatedOut.{inject_fully_negotiated_outbound-Finished}
use cl_p2p_setup.Rpc.Handler.DialErrors.{inject_dial_upgrade_error-Finished}
use cl_p2p_setup.Rpc.Handler.PollSafety.{poll-Polled}

-- The calls of the swarm, each with its arguments.
pub data Call (ReqId : Type 0) : Type 0 where
  polls : Context → Call ReqId
  takes_inbound : (now : ℕ) → InboundRequest → Call ReqId
  takes_outbound : (now : ℕ) → ReqId → OutboundRequest → Call ReqId
  dial_fails : ReqId × OutboundRequest → UpgradeError → Call ReqId
  injects : RpcSend ReqId → Call ReqId

-- A handler, the dials that it asked for and that have not ended, and those that ended in an error
-- and were tried again.
pub record World (ReqId Queue Key : Type 0) : Type 0 where
  pub handler : RpcHandler ReqId Queue Key
  pub under_way : ℕ
  pub retried : ℕ

-- The swarm ends only a dial that is under way, and the ids of streams, of 64 bits, have not run out.
abbrev pub is_allowed : {ReqId Queue Key : Type 0} → Call ReqId → World ReqId Queue Key → Bool
is_allowed (polls cx) w = true
is_allowed (takes_inbound now req) w = ltb (w.handler.current_inbound_substream_id + 1) usize_mod
is_allowed (takes_outbound now id req) w =
    ltb 0 w.under_way && ltb (w.handler.current_outbound_substream_id + 1) usize_mod
is_allowed (dial_fails request error) w = ltb 0 w.under_way
is_allowed (injects event) w = true

module _ (timers : DelayQueue) {ReqId : Type 0} where
  open timers use {Queue, Key}

  unfoldable pub call :
      Profile → Call ReqId → World ReqId Queue Key → Outcome (World ReqId Queue Key)
  call profile (polls cx) w = poll timers profile cx w.handler >>= λ (h, answered).
      returns (record w { handler = h; under_way = w.under_way + answer_dials answered })
  call profile (takes_inbound now req) w =
      inject_fully_negotiated_inbound timers profile now req w.handler >>= λ h.
      returns (record w { handler = h })
  call profile (takes_outbound now id req) w =
      inject_fully_negotiated_outbound timers profile now (id, req) w.handler >>= λ h.
      returns (record w { handler = h; under_way = w.under_way - 1 })
  call profile (dial_fails request error) w =
      inject_dial_upgrade_error profile request error w.handler >>= λ h. returns (record {
        handler = h;
        under_way = w.under_way - 1;
        retried = if is_retried error w.handler then w.retried + 1 else w.retried;
      })
  call profile (injects event) w = returns (record w { handler = (inject_event event w.handler).0 })

  abbrev pub new_world : World ReqId Queue Key
  new_world = record { handler = new timers; under_way = 0; retried = 0 }

  -- The worlds that a new handler comes to by allowed calls.
  pub data Reach (profile : Profile) : World ReqId Queue Key → Type 0 where
    starts : Reach profile new_world
    next :
        (c : Call ReqId) (w w' : World ReqId Queue Key)
        → Reach profile w
        → is_allowed c w ≡ true
        → call profile c w ≡ returns w'
        → Reach profile w'

module _ {ReqId Queue Key : Type 0} where
  send_response-dials :
      (id : SubstreamId) (response : RpcCodedResponse) (h : RpcHandler ReqId Queue Key)
      → (send_response id response h).dial_negotiated ≡ h.dial_negotiated
  unfolding send_response
  send_response-dials id response h =
      elim (Option-cases (lookup ℕ_discrete id h.inbound_substreams)) [
        | inl e ↦ rw (e, send_response) refl
        | inr (info, e) ↦ elim (Bool-cases (is_deactivated h.state)) [
          | inl e' ↦ rw (e, e', send_response) refl
          | inr e' ↦ rw (e, e', send_response) refl
        ]
      ]

  inject_event-dials :
      (event : RpcSend ReqId) (h : RpcHandler ReqId Queue Key)
      → (inject_event event h).0.dial_negotiated ≡ h.dial_negotiated
  unfolding inject_event
  inject_event-dials (RpcSend.request id req) h = send_request-dial_negotiated id req h
  inject_event-dials (RpcSend.response id response) h = send_response-dials id response h

module _ {timers : DelayQueue} (laws : Laws timers) {ReqId : Type 0} where
  open timers use {Queue, Key}

  -- The handler is whole, and its count of dials is that of the dials under way and the retried.
  pub record IsGood (w : World ReqId Queue Key) : Type 0 where
    pub whole : IsWhole laws w.handler
    pub counted : w.handler.dial_negotiated ≡ w.under_way + w.retried

  pub record Returned (c : Call ReqId) (w : World ReqId Queue Key)
      (r : Outcome (World ReqId Queue Key)) : Type 0 where
    pub world : World ReqId Queue Key
    pub result : r ≡ returns world
    pub good : IsGood world
    pub more_retried : w.retried ≤ world.retried

  pub call-Returned :
      (profile : Profile) (c : Call ReqId) (w : World ReqId Queue Key)
      → IsGood w
      → is_allowed c w ≡ true
      → Returned c w (call timers profile c w)
  unfolding call
  call-Returned profile (polls cx) w g a =
      let p = poll-Polled laws profile cx w.handler g.whole in
      rw p.result (record {
        world = _;
        result = refl;
        good = record { whole = p.whole; counted = omega (arith, p.counted, g.counted) };
        more_retried = omega arith;
      })
  call-Returned profile (takes_inbound now req) w g a =
      let p =
        inject_fully_negotiated_inbound-Finished laws profile now req w.handler g.whole
          (ltb→lt _ _ a) in
      rw p.result (record {
        world = _;
        result = refl;
        good = record { whole = p.whole; counted = omega (arith, p.counted, g.counted) };
        more_retried = omega arith;
      })
  call-Returned profile (takes_outbound now id req) w g a =
      let positive : 0 < w.under_way = ground arith in
      let room : w.handler.current_outbound_substream_id + 1 < usize_mod = ground arith in
      let p =
        inject_fully_negotiated_outbound-Finished laws profile now id req w.handler g.whole
          (omega (arith, g.counted)) room in
      rw p.result (record {
        world = _;
        result = refl;
        good = record { whole = p.whole; counted = omega (arith, p.counted, g.counted) };
        more_retried = omega arith;
      })
  call-Returned profile (dial_fails request error) w g a =
      let positive = ltb→lt 0 w.under_way a in
      let p =
        inject_dial_upgrade_error-Finished laws profile request error w.handler g.whole
          (omega (arith, positive, g.counted)) in
      rw p.result (elim (Bool-cases (is_retried error w.handler)) [
        | inl e ↦ rw e (record {
          world = _;
          result = refl;
          good = record {
            whole = p.whole;
            counted =
                omega
                  (arith, p.counted, dials_after-retried error w.handler e, positive, g.counted);
          };
          more_retried = omega arith;
        })
        | inr e ↦ rw e (record {
          world = _;
          result = refl;
          good = record {
            whole = p.whole;
            counted =
                omega
                  (arith, p.counted, dials_after-given_up error w.handler e, positive, g.counted);
          };
          more_retried = omega arith;
        })
      ])
  call-Returned profile (injects event) w g a = record {
    world = _;
    result = refl;
    good = record {
      whole = inject_event-IsWhole laws event w.handler g.whole;
      counted = omega (arith, inject_event-dials event w.handler, g.counted);
    };
    more_retried = omega arith;
  }

  pub Reach-IsGood :
      (profile : Profile) (w : World ReqId Queue Key) → Reach timers profile w → IsGood w
  unfolding new
  Reach-IsGood profile w starts = record { whole = new-IsWhole laws; counted = refl }
  Reach-IsGood profile w' (next c w w'' r a e) =
      let p = call-Returned profile c w (Reach-IsGood profile w r) a in
      subst IsGood (returns-injective (sym p.result ∙ e)) p.good
