-- ===== src/Rpc/Handler/Poll.antt =====
-- rpc/handler.rs: `poll`, in the order of its parts, and the sending of a response.
use cl_p2p_setup.Base.{
  ℕ, zero, suc, Bool, true, false, not, ◌||◌, ◌&&◌, is_empty, Option, none, some, [], ◌∷◌, ◌++◌,
  last, ltb, ◌==◌, if◌then◌else◌, ℕ_discrete,
}
use cl_p2p_setup.Base.Swarm.{Result, ok, err, Poll}
use cl_p2p_setup.Base.Tables.{lookup, insert, remove}
use cl_p2p_setup.Base.Machine.{Outcome, returns, ◌>>=◌, Profile, u32_mod, add_word}
use cl_p2p_setup.Rpc.Methods.{RpcCodedResponse, success, error, close_after}
use cl_p2p_setup.Rpc.Protocol.{RpcError}
use cl_p2p_setup.Rpc.Outbound.{OutboundRequest}
use cl_p2p_setup.Rpc.Handler.{
  SubstreamId, DelayQueue, expired, failed, nothing_due, shutting_down, deactivated, HandlerEvent,
  RpcHandler,
}

-- What `poll` is answered by the clock, the streams and the futures that it drives.
pub record Context : Type 0 where
  pub now : ℕ
  pub task : ℕ
  pub sleep_elapsed : Bool
  -- `poll_unpin` of the call that sends, in the n-th round for the stream: the results of its `send`
  -- and, where it comes to that, of its `close`.
  pub sending : SubstreamId → ℕ → Poll (Result (Unit {0}) RpcError × Result (Unit {0}) RpcError)
  pub close_inbound : SubstreamId → Poll (Result (Unit {0}) RpcError)
  pub next_response : SubstreamId → Poll (Option (Result RpcCodedResponse RpcError))
  pub close_outbound : SubstreamId → Poll (Unit {0})

-- The events that `poll` is ready with.
pub data Action (ReqId : Type 0) : Type 0 where
  custom : HandlerEvent ReqId → Action ReqId
  close : RpcError → Action ReqId
  outbound_substream_request : ReqId → OutboundRequest → Action ReqId

abbrev pub is_error : RpcCodedResponse → Bool
is_error error = true
is_error (success response) = false

-- `true` in the result says that the stream was closed.
unfoldable pub send_message_to_inbound_substream :
    (message : RpcCodedResponse) (last_chunk : Bool) (send close : Result (Unit {0}) RpcError)
    → Result Bool RpcError
send_message_to_inbound_substream message last_chunk (err e) _ = err e
send_message_to_inbound_substream message last_chunk (ok sent) closed =
    if last_chunk || is_error message
    then elim closed [ ok c ↦ ok true | err e ↦ err e ]
    else ok false

-- `pending_items.back().map(|l| l.close_after()) == Some(false)`
abbrev pub is_cut_short : Option RpcCodedResponse → Bool
is_cut_short none = false
is_cut_short (some response) = not (close_after response)

module _ {ReqId Queue Key : Type 0} where
  -- `will_wake` tells whether the two wakers wake the same task.
  unfoldable pub update_waker : ℕ → RpcHandler ReqId Queue Key → RpcHandler ReqId Queue Key
  update_waker task h = elim h.waker [
    | some waker ↦ if waker == task then record h { waker = some task } else h
    | none ↦ record h { waker = some task }
  ]

  -- The dial queue: a request is dialled if there is room.
  unfoldable pub poll_dial :
      Profile
      → RpcHandler ReqId Queue Key
      → Outcome (RpcHandler ReqId Queue Key × Option (Action ReqId))
  poll_dial profile h = elim h.dial_queue [
    | [] ↦ returns (h, none)
    | (id, req) ∷ rest ↦
        if ltb h.dial_negotiated h.max_dial_negotiated
        then (add_word u32_mod profile h.dial_negotiated 1 >>= λ negotiated. returns (
          record h { dial_negotiated = negotiated; dial_queue = rest },
          some (outbound_substream_request id req),
        ))
        else returns (h, none)
  ]

  -- A handler that shuts down closes when nothing is left to do.
  unfoldable pub poll_shutdown : RpcHandler ReqId Queue Key → Option (Action ReqId)
  poll_shutdown h = elim h.state [
    | shutting_down until ↦
        if is_empty h.dial_queue
          && is_empty h.outbound_substreams
          && is_empty h.inbound_substreams
          && is_empty h.events_out
          && h.dial_negotiated == 0
        then some (close RpcError.error)
        else none
    | _ ↦ none
  ]

  -- The sleep of a handler that shuts down.
  unfoldable pub poll_sleep :
      Context → RpcHandler ReqId Queue Key → RpcHandler ReqId Queue Key × Option (Action ReqId)
  poll_sleep cx h = elim h.state [
    | shutting_down until ↦
        if cx.sleep_elapsed
        then (record h { state = deactivated }, some (close RpcError.error))
        else (h, none)
    | _ ↦ (h, none)
  ]

  unfoldable pub time_out_inbound :
      SubstreamId → RpcHandler ReqId Queue Key → RpcHandler ReqId Queue Key
  time_out_inbound id h = elim (lookup ℕ_discrete id h.inbound_substreams) [
    | none ↦ h
    | some info ↦
        let items =
          if is_cut_short (last info.pending_items)
          then info.pending_items ++ error ∷ []
          else info.pending_items in
        record h {
          events_out = h.events_out ++ err "Stream Timeout" ∷ [];
          inbound_substreams =
              insert ℕ_discrete id (record info { delay_key = none; pending_items = items })
                h.inbound_substreams;
        }
  ]

module _ (timers : DelayQueue) {ReqId : Type 0} where
  open timers use {Queue, Key, reset, remove_key, poll_expired, entries}

  -- The first loop over expired timers. Each round takes an entry out of the queue, so it has
  -- one more round than there are entries.
  unfoldable pub expire_inbound :
      ℕ
      → (now : ℕ) → RpcHandler ReqId Queue Key
      → RpcHandler ReqId Queue Key × Option (Action ReqId)
  expire_inbound zero now h = (h, none)
  expire_inbound (suc rounds) now h =
      let (delay, expiry) = poll_expired now h.inbound_substreams_delay in
      let h' = record h { inbound_substreams_delay = delay } in
      elim expiry [
        | expired id ↦ expire_inbound rounds now (time_out_inbound id h')
        | failed ↦ (h', some (close RpcError.error))
        | nothing_due ↦ (h', none)
      ]

  unfoldable pub expire_outbound :
      ℕ
      → (now : ℕ) → RpcHandler ReqId Queue Key
      → RpcHandler ReqId Queue Key × Option (Action ReqId)
  expire_outbound zero now h = (h, none)
  expire_outbound (suc rounds) now h =
      let (delay, expiry) = poll_expired now h.outbound_substreams_delay in
      let h' = record h { outbound_substreams_delay = delay } in
      elim expiry [
        | expired id ↦ elim (lookup ℕ_discrete id h'.outbound_substreams) [
          | none ↦ expire_outbound rounds now h'
          | some info ↦ (
            record h' { outbound_substreams = remove ℕ_discrete id h'.outbound_substreams },
            some (custom (err "Stream Timeout")),
          )
        ]
        | failed ↦ (h', some (close RpcError.error))
        | nothing_due ↦ (h', none)
      ]
