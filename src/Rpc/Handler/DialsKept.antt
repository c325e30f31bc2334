-- ===== src/Rpc/Handler/DialsKept.antt =====
-- rpc/handler.rs: the count of dials in the loops of `poll` over the timers.
use cl_p2p_setup.Base.{ℕ, zero, suc, ◌+◌, ◌≡◌, refl, inl, inr, Option-cases, ℕ_discrete, arith}
use cl_p2p_setup.Base.Tables.{lookup}
use cl_p2p_setup.Rpc.Handler.{SubstreamId, DelayQueue, RpcHandler}
use cl_p2p_setup.Rpc.Handler.Poll.{time_out_inbound, expire_inbound, expire_outbound}
use cl_p2p_setup.Rpc.Handler.Dials.{option_dials}
use cl_p2p_setup.Rpc.Handler.TimersDue.{Expiry-cases}

module _ (timers : DelayQueue) {ReqId : Type 0} where
  open timers use {Queue, Key, poll_expired}

  time_out_inbound-dials :
      (id : SubstreamId) (h : RpcHandler ReqId Queue Key)
      → (time_out_inbound id h).dial_negotiated ≡ h.dial_negotiated
  unfolding time_out_inbound
  time_out_inbound-dials id h = elim (Option-cases (lookup ℕ_discrete id h.inbound_substreams)) [
    | inl f ↦ rw (f, time_out_inbound) refl
    | inr (info, f) ↦ rw (f, time_out_inbound) refl
  ]

  pub expire_inbound-dials :
      (rounds now : ℕ) (h : RpcHandler ReqId Queue Key)
      → (expire_inbound timers rounds now h).0.dial_negotiated
        ≡ h.dial_negotiated + option_dials (expire_inbound timers rounds now h).1
  unfolding expire_inbound
  expire_inbound-dials zero now h = omega arith
  expire_inbound-dials (suc rounds) now h =
      elim (Expiry-cases (poll_expired now h.inbound_substreams_delay).1) [
        | inl (id, e) ↦
            let h' = record h {
              inbound_substreams_delay = (poll_expired now h.inbound_substreams_delay).0;
            } in
            rw (e, expire_inbound)
              (omega (
                arith,
                expire_inbound-dials rounds now (time_out_inbound id h'),
                time_out_inbound-dials id h',
              ))
        | inr (inl e) ↦ rw (e, expire_inbound) (omega arith)
        | inr (inr e) ↦ rw (e, expire_inbound) (omega arith)
      ]

  pub expire_outbound-dials :
      (rounds now : ℕ) (h : RpcHandler ReqId Queue Key)
      → (expire_outbound timers rounds now h).0.dial_negotiated
        ≡ h.dial_negotiated + option_dials (expire_outbound timers rounds now h).1
  unfolding expire_outbound
  expire_outbound-dials zero now h = omega arith
  expire_outbound-dials (suc rounds) now h =
      elim (Expiry-cases (poll_expired now h.outbound_substreams_delay).1) [
        | inl (id, e) ↦ elim (Option-cases (lookup ℕ_discrete id h.outbound_substreams)) [
          | inl f ↦ rw (e, f, expire_outbound) (expire_outbound-dials rounds now _)
          | inr (info, f) ↦ rw (e, f, expire_outbound) (omega arith)
        ]
        | inr (inl e) ↦ rw (e, expire_outbound) (omega arith)
        | inr (inr e) ↦ rw (e, expire_outbound) (omega arith)
      ]
