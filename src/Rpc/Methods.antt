-- ===== src/Rpc/Methods.antt =====
-- rpc/methods.rs: the messages. Bytes are numbers below 256; a `Hash256` is its bytes and a bit
-- vector its bits, since the code only passes them on.
use cl_p2p_setup.Base.{ℕ, Bool, true, false, Option, some, List, ◌==◌}

pub record StatusMessage : Type 0 where
  pub fork_digest : List ℕ
  pub finalized_root : List ℕ
  pub finalized_epoch : ℕ
  pub head_root : List ℕ
  pub head_slot : ℕ

pub record Ping : Type 0 where
  pub payload : ℕ

pub record MetaData : Type 0 where
  pub seq_number : ℕ
  pub attnets : List Bool
  pub syncnets : List Bool

pub data RpcResponse : Type 0 where
  status : StatusMessage → RpcResponse
  pong : Ping → RpcResponse
  meta_data : MetaData → RpcResponse

pub data RpcCodedResponse : Type 0 where
  success : RpcResponse → RpcCodedResponse
  error : RpcCodedResponse

abbrev pub as_u8 : RpcCodedResponse → Option ℕ
as_u8 (success response) = some 0
as_u8 error = some 4

abbrev pub is_response : ℕ → Bool
is_response response_code = response_code == 0

abbrev pub close_after : RpcCodedResponse → Bool
close_after (success response) = false
close_after error = true
