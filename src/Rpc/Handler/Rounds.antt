-- ===== src/Rpc/Handler/Rounds.antt =====
-- rpc/handler.rs: the rounds of the two loops of `poll` over the timers.
use cl_p2p_setup.Base.{ℕ, zero, suc, ◌<◌, ◌≡◌, refl, ap, inl, inr, Option-cases, ℕ_discrete, arith}
use cl_p2p_setup.Base.Tables.{lookup}
use cl_p2p_setup.Rpc.Handler.{SubstreamId, DelayQueue, RpcHandler}
use cl_p2p_setup.Rpc.Handler.Poll.{time_out_inbound, expire_inbound, expire_outbound}
use cl_p2p_setup.Rpc.Handler.Timers.{Laws}
use cl_p2p_setup.Rpc.Handler.TimersDue.{Expiry-cases}

module _ {timers : DelayQueue} (laws : Laws timers) {ReqId : Type 0} where
  open timers use {Queue, Key, poll_expired, entries}

  time_out_inbound-delay :
      (id : SubstreamId) (h : RpcHandler ReqId Queue Key)
      → (time_out_inbound id h).inbound_substreams_delay ≡ h.inbound_substreams_delay
  unfolding time_out_inbound
  time_out_inbound-delay id h = elim (Option-cases (lookup ℕ_discrete id h.inbound_substreams)) [
    | inl f ↦ rw (f, time_out_inbound) refl
    | inr (info, f) ↦ rw (f, time_out_inbound) refl
  ]

  -- With more rounds than the queue has entries, the loop over the inbound timers ends by itself: its
  -- result does not depend on the number of rounds.
  pub expire_inbound-rounds :
      (rounds others now : ℕ) (h : RpcHandler ReqId Queue Key)
      → entries h.inbound_substreams_delay < rounds
      → entries h.inbound_substreams_delay < others
      → expire_inbound timers rounds now h ≡ expire_inbound timers others now h
  unfolding expire_inbound
  expire_inbound-rounds zero others now h lt lt' = ground arith
  expire_inbound-rounds (suc rounds) zero now h lt lt' = ground arith
  expire_inbound-rounds (suc rounds) (suc others) now h lt lt' =
      elim (Expiry-cases (poll_expired now h.inbound_substreams_delay).1) [
        | inl (id, e) ↦
            rw (e, expire_inbound)
              (expire_inbound-rounds rounds others now _
                (omega (
                  arith,
                  lt,
                  laws.expiry_shrinks now h.inbound_substreams_delay id e,
                  ap entries (
                      time_out_inbound-delay id (record h {
                        inbound_substreams_delay = (poll_expired now h.inbound_substreams_delay).0;
                      })),
                ))
                (omega (
                  arith,
                  lt',
                  laws.expiry_shrinks now h.inbound_substreams_delay id e,
                  ap entries (
                      time_out_inbound-delay id (record h {
                        inbound_substreams_delay = (poll_expired now h.inbound_substreams_delay).0;
                      })),
                )))
        | inr (inl e) ↦ rw (e, expire_inbound) refl
        | inr (inr e) ↦ rw (e, expire_inbound) refl
      ]

  -- The same of the loop over the outbound timers.
  pub expire_outbound-rounds :
      (rounds others now : ℕ) (h : RpcHandler ReqId Queue Key)
      → entries h.outbound_substreams_delay < rounds
      → entries h.outbound_substreams_delay < others
      → expire_outbound timers rounds now h ≡ expire_outbound timers others now h
  unfolding expire_outbound
  expire_outbound-rounds zero others now h lt lt' = ground arith
  expire_outbound-rounds (suc rounds) zero now h lt lt' = ground arith
  expire_outbound-rounds (suc rounds) (suc others) now h lt lt' =
      elim (Expiry-cases (poll_expired now h.outbound_substreams_delay).1) [
        | inl (id, e) ↦ elim (Option-cases (lookup ℕ_discrete id h.outbound_substreams)) [
          | inl f ↦
              rw (e, f, expire_outbound)
                (expire_outbound-rounds rounds others now _
                  (omega (arith, lt, laws.expiry_shrinks now h.outbound_substreams_delay id e))
                  (omega (arith, lt', laws.expiry_shrinks now h.outbound_substreams_delay id e)))
          | inr (info, f) ↦ rw (e, f, expire_outbound) refl
        ]
        | inr (inl e) ↦ rw (e, expire_outbound) refl
        | inr (inr e) ↦ rw (e, expire_outbound) refl
      ]
