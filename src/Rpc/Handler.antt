-- ===== src/Rpc/Handler.antt =====
-- rpc/handler.rs: the state of the handler of one connection, and what is done outside `poll`.
-- The streams and futures belong to libp2p: where `poll` drives one, its answer is an argument. Time
-- is in nanoseconds, and each reading of the clock an argument, `now`.
pub mod Inject
pub mod Poll
pub mod InboundStreams
pub mod OutboundStreams
pub mod Turn
pub mod Timers
pub mod OutboundSafety
pub mod OutboundLoop
pub mod Dials
pub mod Invariant
pub mod Negotiated
pub mod NegotiatedOut
pub mod TimersDue
pub mod DialsKept
pub mod Polled
pub mod PollSafety
pub mod Slab
pub mod Runs
mod Tests
pub mod Calls
pub mod Reach
pub mod Rounds
pub mod Events
pub mod Closing
pub mod DialErrors
pub mod InboundSafety
pub mod InboundLoop
pub mod Table
use cl_p2p_setup.Base.{
  ℕ, ◌+◌, ◌*◌, ◌≡◌, Bool, true, false, ◌&&◌, Option, none, some, List, [], ◌∷◌, ◌++◌, String,
  length, is_empty, ltb, ◌==◌, if◌then◌else◌, ℕ_discrete,
}
use cl_p2p_setup.Base.Swarm.{Result, ok, err}
use cl_p2p_setup.Base.Tables.{lookup, insert}
use cl_p2p_setup.Base.Machine.{
  Outcome, returns, ◌>>=◌, Profile, u8_mod, u32_mod, usize_mod, add_word, sub_word,
}
use cl_p2p_setup.Rpc.Methods.{RpcResponse, RpcCodedResponse, error}
use cl_p2p_setup.Rpc.Protocol.{Protocol}
use cl_p2p_setup.Rpc.Inbound.{InboundRequest, goodbye}
use cl_p2p_setup.Rpc.Inbound
use cl_p2p_setup.Rpc.Outbound.{OutboundRequest}
use cl_p2p_setup.Rpc.Outbound

abbrev pub shutdown_timeout_secs : ℕ
shutdown_timeout_secs = 15

abbrev pub max_inbound_substreams : ℕ
max_inbound_substreams = 32

abbrev pub response_timeout : ℕ
response_timeout = 10

abbrev pub io_error_retries : ℕ
io_error_retries = 3

abbrev pub nanos : ℕ → ℕ
nanos secs = secs * 1_000_000_000

abbrev pub SubstreamId : Type 0
SubstreamId = ℕ

-- What `poll_expired` answers: an entry whose time is up, an error of the timer, or nothing due.
pub data Expiry : Type 0 where
  expired : SubstreamId → Expiry
  failed nothing_due : Expiry

-- The `DelayQueue` of tokio-util, at type `SubstreamId`. A time to wait is in seconds. `reset` and
-- `remove` panic on a key that is not in the queue.
pub record DelayQueue : Type 1 where
  pub Queue : Type 0
  pub Key : Type 0
  pub empty : Queue
  pub insert_at : (now : ℕ) → Queue → SubstreamId → ℕ → Queue × Key
  pub reset : (now : ℕ) → Queue → Key → ℕ → Outcome Queue
  pub remove_key : Queue → Key → Outcome Queue
  pub poll_expired : (now : ℕ) → Queue → Queue × Expiry
  pub entries : Queue → ℕ

-- `Busy` holds the arguments of the call of `send_message_to_inbound_substream` under way.
pub data InboundState : Type 0 where
  idle : InboundState
  busy : (message : RpcCodedResponse) (last_chunk : Bool) → InboundState
  poisoned : InboundState

pub data OutboundSubstreamState : Type 0 where
  request_pending_response : OutboundRequest → OutboundSubstreamState
  closing poisoned : OutboundSubstreamState

-- `shutting_down` holds the time at which its sleep ends.
pub data HandlerState : Type 0 where
  active : HandlerState
  shutting_down : ℕ → HandlerState
  deactivated : HandlerState

pub data RpcSend (ReqId : Type 0) : Type 0 where
  request : ReqId → OutboundRequest → RpcSend ReqId
  response : SubstreamId → RpcCodedResponse → RpcSend ReqId

pub data RpcReceived (ReqId : Type 0) : Type 0 where
  request : SubstreamId → InboundRequest → RpcReceived ReqId
  response : ReqId → RpcResponse → RpcReceived ReqId

abbrev pub HandlerEvent : Type 0 → Type 0
HandlerEvent ReqId = Result (RpcReceived ReqId) String

pub data KeepAlive : Type 0 where
  no_more still : KeepAlive

-- The error of a failed dial: that of the upgrade itself, or any other.
pub data UpgradeError : Type 0 where
  apply other : UpgradeError

abbrev pub is_active : HandlerState → Bool
is_active active = true
is_active _ = false

abbrev pub is_deactivated : HandlerState → Bool
is_deactivated deactivated = true
is_deactivated _ = false

pub record InboundInfo (Key : Type 0) : Type 0 where
  pub state : InboundState
  pub pending_items : List RpcCodedResponse
  pub protocol : Protocol
  pub remaining_chunks : ℕ
  pub request_start_time : ℕ
  pub delay_key : Option Key

pub record OutboundInfo (ReqId Key : Type 0) : Type 0 where
  pub state : OutboundSubstreamState
  pub delay_key : Key
  pub proto : Protocol
  pub remaining_chunks : Option ℕ
  pub req_id : ReqId

-- A waker is known by the task that it wakes.
pub record RpcHandler (ReqId Queue Key : Type 0) : Type 0 where
  pub events_out : List (HandlerEvent ReqId)
  pub dial_queue : List (ReqId × OutboundRequest)
  pub dial_negotiated : ℕ
  pub inbound_substreams : List (SubstreamId × InboundInfo Key)
  pub inbound_substreams_delay : Queue
  pub outbound_substreams : List (SubstreamId × OutboundInfo ReqId Key)
  pub outbound_substreams_delay : Queue
  pub current_inbound_substream_id : SubstreamId
  pub current_outbound_substream_id : SubstreamId
  pub max_dial_negotiated : ℕ
  pub state : HandlerState
  pub outbound_io_error_retries : ℕ
  pub waker : Option ℕ
