-- ===== src/Rpc/Protocol.antt =====
-- rpc/protocol.rs: the protocols with their names and size limits, and the
-- error type.
use Prim.Native.String.{◌++◌}
use cl_p2p_setup.Base.{ℕ, ◌*◌, Bool, true, false, ◌||◌, List, [], ◌∷◌, String, ltb}

abbrev pub max_rpc_size_post_merge : ℕ
max_rpc_size_post_merge = 10 * 1_048_576

abbrev pub protocol_prefix : String
protocol_prefix = "/eth2/beacon_chain/req"

abbrev pub encoding : String
encoding = "ssz_snappy"

pub data Protocol : Type 0 where
  status goodbye blocks_by_range blocks_by_root ping meta_data light_client_bootstrap : Protocol

abbrev pub protocol_fmt : Protocol → String
protocol_fmt status = "status"
protocol_fmt goodbye = "goodbye"
protocol_fmt blocks_by_range = "beacon_blocks_by_range"
protocol_fmt blocks_by_root = "beacon_blocks_by_root"
protocol_fmt ping = "ping"
protocol_fmt meta_data = "metadata"
protocol_fmt light_client_bootstrap = "light_client_bootstrap"

pub data Version : Type 0 where
  v1 v2 : Version

abbrev pub version_fmt : Version → String
version_fmt v1 = "1"
version_fmt v2 = "2"

pub record ProtocolId : Type 0 where
  pub message_name : Protocol
  pub version : Version
  pub protocol_id : String

unfoldable pub new_protocol_id : Protocol → Version → ProtocolId
new_protocol_id name v = record {
  message_name = name;
  version = v;
  protocol_id =
      protocol_prefix ++ "/" ++ protocol_fmt name ++ "/" ++ version_fmt v ++ "/" ++ encoding;
}

pub record RpcLimits : Type 0 where
  pub min : ℕ
  pub max : ℕ

-- Out of the limits: above the smaller of `max` and the limit on all messages, or below `min`.
unfoldable pub is_out_of_bounds : RpcLimits → ℕ → ℕ → Bool
is_out_of_bounds limits length max_rpc_size =
    ltb (Prim.Native.Nat.min limits.max max_rpc_size) length || ltb length limits.min

-- `ssz_fixed_len` of the messages, which the SSZ library derives.
pub record FixedLengths : Type 0 where
  pub status_len : ℕ
  pub ping_len : ℕ
  pub meta_data_len : ℕ

abbrev pub limits_of : ℕ → RpcLimits
limits_of n = record { min = n; max = n }

abbrev pub rpc_request_limits : FixedLengths → ProtocolId → RpcLimits
rpc_request_limits lengths id = elim id.message_name [
  | status ↦ limits_of lengths.status_len
  | ping ↦ limits_of lengths.ping_len
  | _ ↦ limits_of 0
]

abbrev pub rpc_response_limits : FixedLengths → ProtocolId → RpcLimits
rpc_response_limits lengths id = elim id.message_name [
  | status ↦ limits_of lengths.status_len
  | ping ↦ limits_of lengths.ping_len
  | meta_data ↦ limits_of lengths.meta_data_len
  | _ ↦ limits_of 0
]

abbrev pub has_context_bytes : ProtocolId → Bool
has_context_bytes id = elim id.message_name [
  | blocks_by_range ↦ true
  | blocks_by_root ↦ true
  | _ ↦ false
]

-- The protocols on which `RPCProtocol` listens.
unfoldable pub protocol_info : List ProtocolId
protocol_info =
    new_protocol_id status v1
    ∷ new_protocol_id goodbye v1
    ∷ new_protocol_id ping v1
    ∷ new_protocol_id meta_data v2
    ∷ []

pub data RpcError : Type 0 where
  error : RpcError
