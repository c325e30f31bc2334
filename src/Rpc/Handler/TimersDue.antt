-- ===== src/Rpc/Handler/TimersDue.antt =====
-- rpc/handler.rs: the two loops of `poll` over the timers.
use cl_p2p_setup.Base.{
  ℕ, zero, suc, ◌<◌, ◌≡◌, ◌≢◌, refl, sym, ◌∙◌, inl, inr, ◌⊎◌, none, some, Option-cases, ℕ_discrete,
}
use cl_p2p_setup.Base.Tables.{lookup, remove}
use cl_p2p_setup.Rpc.Handler.{
  SubstreamId, DelayQueue, Expiry, expired, failed, nothing_due, RpcHandler,
}
use cl_p2p_setup.Rpc.Handler.Poll.{time_out_inbound, expire_inbound, expire_outbound}
use cl_p2p_setup.Rpc.Handler.Table.{
  map-IsTable, remove-IsTable, remove-AllKeys, lookup-none-IsTable, lookup-IsTable,
}
use cl_p2p_setup.Rpc.Handler.Timers.{Laws, Keeps}
use cl_p2p_setup.Rpc.Handler.InboundSafety.{IsSound-under, Keeps-Carries}
use cl_p2p_setup.Rpc.Handler.OutboundSafety.{Keeps-Carries-IsOpen}
use cl_p2p_setup.Rpc.Handler.Invariant.{IsWhole, replace_inbound}

pub Expiry-cases :
    (x : Expiry) → ((id : SubstreamId) × (x ≡ expired id)) ⊎ (x ≡ failed) ⊎ (x ≡ nothing_due)
Expiry-cases (expired id) = inl (id, refl)
Expiry-cases failed = inr (inl refl)
Expiry-cases nothing_due = inr (inr refl)

expired-injective : {i j : SubstreamId} → expired i ≡ expired j → i ≡ j
expired-injective h = cc

module _ {timers : DelayQueue} (laws : Laws timers) where
  open timers use {Queue, Key, poll_expired}

  expired-Keeps :
      (now : ℕ) (q : Queue) (id : SubstreamId)
      → (poll_expired now q).1 ≡ expired id
      → Keeps laws q (poll_expired now q).0 id
  expired-Keeps now q id e k j f ne =
      laws.expiry_keeps now q k j f (λ g. ne (expired-injective (sym g ∙ e)))

  -- With no entry taken out, all timers are kept.
  unexpired_keeps :
      (now : ℕ) (q : Queue)
      → ((id : SubstreamId) → (poll_expired now q).1 ≢ expired id)
      → (j : SubstreamId) (k : Key) → laws.find q k ≡ some j
      → laws.find (poll_expired now q).0 k ≡ some j
  unexpired_keeps now q n j k f = laws.expiry_keeps now q k j f (n j)

module _ {timers : DelayQueue} (laws : Laws timers) {ReqId : Type 0} where
  open timers use {Queue, Key, poll_expired}

  time_out_inbound-IsWhole :
      (now : ℕ) (id : SubstreamId) (h : RpcHandler ReqId Queue Key)
      → IsWhole laws h
      → (poll_expired now h.inbound_substreams_delay).1 ≡ expired id
      → IsWhole laws (
          time_out_inbound id (record h {
            inbound_substreams_delay = (poll_expired now h.inbound_substreams_delay).0;
          }))
  unfolding time_out_inbound
  time_out_inbound-IsWhole now id h w e =
      let q = h.inbound_substreams_delay in
      let carries =
        Keeps-Carries laws q (poll_expired now q).0 id (expired-Keeps laws now q id e) in
      elim (Option-cases (lookup ℕ_discrete id h.inbound_substreams)) [
        | inl f ↦
            rw (f, time_out_inbound)
              (record {
                inbound = record {
                  sound = lookup-none-IsTable _ _ id _ carries f w.inbound.sound;
                  capacity = w.inbound.capacity;
                  fresh = w.inbound.fresh;
                };
                outbound = w.outbound;
                dials = w.dials;
              })
        | inr (info, f) ↦
            rw (f, time_out_inbound)
              (record {
                inbound = replace_inbound laws _ _ _ _ id info _ w.inbound f carries (record {
                  timed = tt;
                  whole = (lookup-IsTable _ id info _ f w.inbound.sound).whole;
                });
                outbound = w.outbound;
                dials = w.dials;
              })
      ]

  unexpired_inbound-IsWhole :
      (now : ℕ) (h : RpcHandler ReqId Queue Key)
      → IsWhole laws h
      → ((id : SubstreamId) → (poll_expired now h.inbound_substreams_delay).1 ≢ expired id)
      → IsWhole laws
          (record h { inbound_substreams_delay = (poll_expired now h.inbound_substreams_delay).0 })
  unexpired_inbound-IsWhole now h w n = record {
    inbound = record {
      sound =
          map-IsTable _ _ h.inbound_substreams
            (λ j v s.
              IsSound-under laws _ _ j v (unexpired_keeps laws now h.inbound_substreams_delay n j)
                s)
            w.inbound.sound;
      capacity = w.inbound.capacity;
      fresh = w.inbound.fresh;
    };
    outbound = w.outbound;
    dials = w.dials;
  }

  pub expire_inbound-IsWhole :
      (rounds now : ℕ) (h : RpcHandler ReqId Queue Key)
      → IsWhole laws h
      → IsWhole laws (expire_inbound timers rounds now h).0
  unfolding expire_inbound
  expire_inbound-IsWhole zero now h w = w
  expire_inbound-IsWhole (suc rounds) now h w =
      elim (Expiry-cases (poll_expired now h.inbound_substreams_delay).1) [
        | inl (id, e) ↦
            rw (e, expire_inbound)
              (expire_inbound-IsWhole rounds now _ (time_out_inbound-IsWhole now id h w e))
        | inr (inl e) ↦ rw (e, expire_inbound) (unexpired_inbound-IsWhole now h w (λ id f. cc))
        | inr (inr e) ↦ rw (e, expire_inbound) (unexpired_inbound-IsWhole now h w (λ id f. cc))
      ]

  removed_outbound-IsWhole :
      (now : ℕ) (id : SubstreamId) (h : RpcHandler ReqId Queue Key)
      → IsWhole laws h
      → (poll_expired now h.outbound_substreams_delay).1 ≡ expired id
      → IsWhole laws (record h {
        outbound_substreams_delay = (poll_expired now h.outbound_substreams_delay).0;
        outbound_substreams = remove ℕ_discrete id h.outbound_substreams;
      })
  removed_outbound-IsWhole now id h w e = record {
    inbound = w.inbound;
    outbound = record {
      is_open =
          remove-IsTable _ _ id h.outbound_substreams
            (Keeps-Carries-IsOpen laws _ _ id
              (expired-Keeps laws now h.outbound_substreams_delay id e))
            w.outbound.is_open;
      fresh =
          remove-AllKeys (λ j. j < h.current_outbound_substream_id) id h.outbound_substreams
            w.outbound.fresh;
    };
    dials = w.dials;
  }

  unknown_outbound-IsWhole :
      (now : ℕ) (id : SubstreamId) (h : RpcHandler ReqId Queue Key)
      → IsWhole laws h
      → (poll_expired now h.outbound_substreams_delay).1 ≡ expired id
      → lookup ℕ_discrete id h.outbound_substreams ≡ none
      → IsWhole laws (record h {
        outbound_substreams_delay = (poll_expired now h.outbound_substreams_delay).0;
      })
  unknown_outbound-IsWhole now id h w e f = record {
    inbound = w.inbound;
    outbound = record {
      is_open =
          lookup-none-IsTable _ _ id h.outbound_substreams
            (Keeps-Carries-IsOpen laws _ _ id
              (expired-Keeps laws now h.outbound_substreams_delay id e))
            f w.outbound.is_open;
      fresh = w.outbound.fresh;
    };
    dials = w.dials;
  }

  unexpired_outbound-IsWhole :
      (now : ℕ) (h : RpcHandler ReqId Queue Key)
      → IsWhole laws h
      → ((id : SubstreamId) → (poll_expired now h.outbound_substreams_delay).1 ≢ expired id)
      → IsWhole laws (record h {
        outbound_substreams_delay = (poll_expired now h.outbound_substreams_delay).0;
      })
  unexpired_outbound-IsWhole now h w n = record {
    inbound = w.inbound;
    outbound = record {
      is_open =
          map-IsTable _ _ h.outbound_substreams
            (λ j v s. record {
              timed = unexpired_keeps laws now h.outbound_substreams_delay n j v.delay_key s.timed;
              whole = s.whole;
            })
            w.outbound.is_open;
      fresh = w.outbound.fresh;
    };
    dials = w.dials;
  }

  pub expire_outbound-IsWhole :
      (rounds now : ℕ) (h : RpcHandler ReqId Queue Key)
      → IsWhole laws h
      → IsWhole laws (expire_outbound timers rounds now h).0
  unfolding expire_outbound
  expire_outbound-IsWhole zero now h w = w
  expire_outbound-IsWhole (suc rounds) now h w =
      elim (Expiry-cases (poll_expired now h.outbound_substreams_delay).1) [
        | inl (id, e) ↦ elim (Option-cases (lookup ℕ_discrete id h.outbound_substreams)) [
          | inl f ↦
              rw (e, f, expire_outbound)
                (expire_outbound-IsWhole rounds now _ (unknown_outbound-IsWhole now id h w e f))
          | inr (info, f) ↦ rw (e, f, expire_outbound) (removed_outbound-IsWhole now id h w e)
        ]
        | inr (inl e) ↦ rw (e, expire_outbound) (unexpired_outbound-IsWhole now h w (λ id f. cc))
        | inr (inr e) ↦ rw (e, expire_outbound) (unexpired_outbound-IsWhole now h w (λ id f. cc))
      ]
