-- ===== src/Rpc/Handler/Invariant.antt =====
-- rpc/handler.rs: the streams of a handler, under the calls that inject an event.
use cl_p2p_setup.Base.{
  none, ℕ, ◌<◌, ◌≤◌, ◌≡◌, refl, inl, inr, some, List, length, Bool-cases, Option-cases, ℕ_discrete,
  arith,
}
use cl_p2p_setup.Base.Tables.{lookup, insert}
use cl_p2p_setup.Base.Machine.{Outcome, returns}
use cl_p2p_setup.Rpc.Methods.{RpcCodedResponse}
use cl_p2p_setup.Rpc.Outbound.{OutboundRequest}
use cl_p2p_setup.Rpc.Handler.{
  SubstreamId, DelayQueue, InboundInfo, OutboundInfo, RpcHandler, RpcSend, is_active,
  is_deactivated, max_inbound_substreams,
}
use cl_p2p_setup.Rpc.Handler.Inject.{shutdown, send_request, send_response, inject_event, new}
use cl_p2p_setup.Rpc.Handler.Table.{
  IsTable, AllKeys, Carries, insert-IsTable, insert-AllKeys, lookup-IsTable, lookup-AllKeys,
  length-insert_found,
}
use cl_p2p_setup.Rpc.Handler.Timers.{Laws}
use cl_p2p_setup.Rpc.Handler.InboundSafety.{IsSound}
use cl_p2p_setup.Rpc.Handler.OutboundSafety.{IsOpen}
use cl_p2p_setup.Rpc.Handler.Dials.{DialsWhole, shutdown-DialsWhole, send_request-DialsWhole}

module _ {timers : DelayQueue} (laws : Laws timers) where
  open timers use {Queue, Key}

  -- The inbound streams can be driven, there are at most 32, and the counter names a fresh one.
  pub record InboundFields (q : Queue) (m : List (SubstreamId × InboundInfo Key)) (next : ℕ)
      : Type 0 where
    pub sound : IsTable (IsSound laws q) m
    pub capacity : length m ≤ max_inbound_substreams
    pub fresh : AllKeys (λ j. j < next) m

  pub record OutboundFields {ReqId : Type 0} (q : Queue)
      (m : List (SubstreamId × OutboundInfo ReqId Key)) (next : ℕ) : Type 0 where
    pub is_open : IsTable (IsOpen laws q) m
    pub fresh : AllKeys (λ j. j < next) m

  abbrev pub InboundWhole : {ReqId : Type 0} → RpcHandler ReqId Queue Key → Type 0
  InboundWhole h =
      InboundFields h.inbound_substreams_delay h.inbound_substreams h.current_inbound_substream_id

  abbrev pub OutboundWhole : {ReqId : Type 0} → RpcHandler ReqId Queue Key → Type 0
  OutboundWhole h =
      OutboundFields h.outbound_substreams_delay h.outbound_substreams
        h.current_outbound_substream_id

  pub record IsWhole {ReqId : Type 0} (h : RpcHandler ReqId Queue Key) : Type 0 where
    pub inbound : InboundWhole h
    pub outbound : OutboundWhole h
    pub dials : DialsWhole h

  -- An entry that is there is replaced.
  pub replace_inbound :
      (q q' : Queue) (m : List (SubstreamId × InboundInfo Key)) (next : ℕ) (id : SubstreamId)
      (old info : InboundInfo Key)
      → InboundFields q m next
      → lookup ℕ_discrete id m ≡ some old
      → Carries (IsSound laws q) (IsSound laws q') id
      → IsSound laws q' id info
      → InboundFields q' (insert ℕ_discrete id info m) next
  replace_inbound q q' m next id old info w e c s = record {
    sound = insert-IsTable _ _ id info m c s w.sound;
    capacity = rw (length-insert_found id old info m e) w.capacity;
    fresh =
        insert-AllKeys (λ j. j < next) id info m (lookup-AllKeys (λ j. j < next) id old m e w.fresh)
          w.fresh;
  }

module _ {timers : DelayQueue} (laws : Laws timers) {ReqId : Type 0} where
  open timers use {Queue, Key}

  -- The call returns a whole handler in which `count` dials are counted.
  pub record Finished (count : ℕ) (r : Outcome (RpcHandler ReqId Queue Key)) : Type 0 where
    pub handler : RpcHandler ReqId Queue Key
    pub result : r ≡ returns handler
    pub whole : IsWhole laws handler
    pub counted : handler.dial_negotiated ≡ count

  pub recount :
      (m n : ℕ) (r : Outcome (RpcHandler ReqId Queue Key)) → m ≡ n → Finished m r → Finished n r
  recount m n r e f = record {
    handler = f.handler;
    result = f.result;
    whole = f.whole;
    counted = omega (arith, e, f.counted);
  }

  pub shutdown-IsWhole :
      (now : ℕ) (h : RpcHandler ReqId Queue Key)
      → IsWhole laws h
      → IsWhole laws (shutdown now none h)
  unfolding shutdown
  shutdown-IsWhole now h w = elim (Bool-cases (is_active h.state)) [
    | inl e ↦ record {
      inbound = rw e w.inbound;
      outbound = rw e w.outbound;
      dials = shutdown-DialsWhole now h w.dials;
    }
    | inr e ↦ rw e w
  ]

  pub send_request-IsWhole :
      (id : ReqId) (req : OutboundRequest) (h : RpcHandler ReqId Queue Key)
      → IsWhole laws h
      → IsWhole laws (send_request id req h)
  unfolding send_request
  send_request-IsWhole id req h w = elim (Bool-cases (is_active h.state)) [
    | inl e ↦ record {
      inbound = rw e w.inbound;
      outbound = rw e w.outbound;
      dials = send_request-DialsWhole id req h w.dials;
    }
    | inr e ↦ record {
      inbound = rw e w.inbound;
      outbound = rw e w.outbound;
      dials = send_request-DialsWhole id req h w.dials;
    }
  ]

  pub send_response-IsWhole :
      (id : SubstreamId) (response : RpcCodedResponse) (h : RpcHandler ReqId Queue Key)
      → IsWhole laws h
      → IsWhole laws (send_response id response h)
  unfolding send_response
  send_response-IsWhole id response h w =
      elim (Option-cases (lookup ℕ_discrete id h.inbound_substreams)) [
        | inl e ↦ rw (e, send_response) w
        | inr (info, e) ↦
            rw (e, send_response)
              (elim (Bool-cases (is_deactivated h.state)) [
                | inl e' ↦
                    rw e' (record { inbound = w.inbound; outbound = w.outbound; dials = w.dials })
                | inr e' ↦ rw e' (record {
                  inbound =
                      replace_inbound laws _ _ _ _ id info _ w.inbound e (λ j v ne s. s)
                        (let s = lookup-IsTable _ id info _ e w.inbound.sound in
                          record { timed = s.timed; whole = s.whole });
                  outbound = w.outbound;
                  dials = w.dials;
                })
              ])
      ]

  pub inject_event-IsWhole :
      (event : RpcSend ReqId) (h : RpcHandler ReqId Queue Key)
      → IsWhole laws h
      → IsWhole laws (inject_event event h).0
  unfolding inject_event
  inject_event-IsWhole (RpcSend.request id req) h w = send_request-IsWhole id req h w
  inject_event-IsWhole (RpcSend.response id response) h w = send_response-IsWhole id response h w

  pub new-IsWhole : IsWhole laws (new timers {ReqId = ReqId})
  unfolding new
  new-IsWhole = record {
    inbound = record { sound = tt; capacity = omega arith; fresh = tt };
    outbound = record { is_open = tt; fresh = tt };
    dials = record { eight = refl; dials = omega arith; tries = omega arith; quiet = λ a. refl };
  }
