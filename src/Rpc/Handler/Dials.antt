-- ===== src/Rpc/Handler/Dials.antt =====
-- rpc/handler.rs: the dials of a handler and its queue of requests.
use cl_p2p_setup.Base.{
  ℕ, ◌+◌, ◌-◌, ◌<◌, ◌≤◌, ◌≡◌, refl, inl, inr, Bool, true, false, Option, none, some, List, [], ltb,
  if◌then◌else◌, Bool-cases,
}
use cl_p2p_setup.Base.Swarm.{Poll, ready, pending}
use cl_p2p_setup.Rpc.Outbound.{OutboundRequest}
use cl_p2p_setup.Rpc.Handler.{
  HandlerState, RpcHandler, UpgradeError, apply, other, is_active, io_error_retries,
}
use cl_p2p_setup.Rpc.Handler.Inject.{shutdown, send_request}
use cl_p2p_setup.Rpc.Handler.Poll.{Action, outbound_substream_request}

-- At most 8 dials are counted, the retries are counted below 3, and a handler that is not active has
-- nothing to send.
pub record DialFields {ReqId : Type 0} (negotiated maximum retries : ℕ) (state : HandlerState)
    (queue : List (ReqId × OutboundRequest)) : Type 0 where
  pub eight : maximum ≡ 8
  pub dials : negotiated ≤ maximum
  pub tries : retries < io_error_retries
  pub quiet : is_active state ≡ false → queue ≡ []

abbrev pub DialsWhole : {ReqId Queue Key : Type 0} → RpcHandler ReqId Queue Key → Type 0
DialsWhole h =
    DialFields h.dial_negotiated h.max_dial_negotiated h.outbound_io_error_retries h.state
      h.dial_queue

module _ {ReqId Queue Key : Type 0} where
  pub shutdown-DialsWhole :
      (now : ℕ) (h : RpcHandler ReqId Queue Key) → DialsWhole h → DialsWhole (shutdown now none h)
  unfolding shutdown
  shutdown-DialsWhole now h w = elim (Bool-cases (is_active h.state)) [
    | inl e ↦ rw e (record { eight = w.eight; dials = w.dials; tries = w.tries; quiet = λ a. refl })
    | inr e ↦ rw e w
  ]

  pub shutdown-dial_negotiated :
      (now : ℕ) (reason : Option ReqId) (h : RpcHandler ReqId Queue Key)
      → (shutdown now reason h).dial_negotiated ≡ h.dial_negotiated
  unfolding shutdown
  shutdown-dial_negotiated now reason h = elim (Bool-cases (is_active h.state)) [
    | inl e ↦ rw e refl
    | inr e ↦ rw e refl
  ]

  pub send_request-DialsWhole :
      (id : ReqId) (req : OutboundRequest) (h : RpcHandler ReqId Queue Key)
      → DialsWhole h
      → DialsWhole (send_request id req h)
  unfolding send_request
  send_request-DialsWhole id req h w = elim (Bool-cases (is_active h.state)) [
    | inl e ↦ rw e (record { eight = w.eight; dials = w.dials; tries = w.tries; quiet = λ a. cc })
    | inr e ↦ rw e w
  ]

  pub send_request-dial_negotiated :
      (id : ReqId) (req : OutboundRequest) (h : RpcHandler ReqId Queue Key)
      → (send_request id req h).dial_negotiated ≡ h.dial_negotiated
  unfolding send_request
  send_request-dial_negotiated id req h = elim (Bool-cases (is_active h.state)) [
    | inl e ↦ rw e refl
    | inr e ↦ rw e refl
  ]

  -- Whether a failed dial is tried again.
  abbrev pub is_retried : UpgradeError → RpcHandler ReqId Queue Key → Bool
  is_retried other h = false
  is_retried apply h = ltb (h.outbound_io_error_retries + 1) io_error_retries

  abbrev pub dials_after : UpgradeError → RpcHandler ReqId Queue Key → ℕ
  dials_after error h = if is_retried error h then h.dial_negotiated else h.dial_negotiated - 1

  pub dials_after-retried :
      (error : UpgradeError) (h : RpcHandler ReqId Queue Key)
      → is_retried error h ≡ true
      → dials_after error h ≡ h.dial_negotiated
  dials_after-retried error h e = rw e refl

  pub dials_after-given_up :
      (error : UpgradeError) (h : RpcHandler ReqId Queue Key)
      → is_retried error h ≡ false
      → dials_after error h ≡ h.dial_negotiated - 1
  dials_after-given_up error h e = rw e refl

module _ {ReqId : Type 0} where
  -- The dials that an action asks the swarm for.
  abbrev pub action_dials : Action ReqId → ℕ
  action_dials (outbound_substream_request id req) = 1
  action_dials _ = 0

  abbrev pub option_dials : Option (Action ReqId) → ℕ
  option_dials none = 0
  option_dials (some action) = action_dials action

  abbrev pub answer_dials : Poll (Action ReqId) → ℕ
  answer_dials (ready action) = action_dials action
  answer_dials pending = 0
