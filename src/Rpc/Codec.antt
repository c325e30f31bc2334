-- ===== src/Rpc/Codec.antt =====
-- rpc/codec/: how requests and responses are written to a stream and read from it. The parts are those
-- of the source: the SSZ-snappy codecs, and the base codecs, which add the response code. SSZ, snappy
-- and the varints are libraries.
pub mod SszSnappy
pub mod Base
pub mod Laws
pub mod Payload
pub mod RoundTrip
pub mod Responses
pub mod Items
pub mod Inbound
mod Tests
use cl_p2p_setup.Base.{ℕ, Option, List}
use cl_p2p_setup.Base.Swarm.{Result}
use cl_p2p_setup.Base.Machine.{Outcome}
use cl_p2p_setup.Rpc.Methods.{StatusMessage, Ping, MetaData}
use cl_p2p_setup.Rpc.Protocol.{FixedLengths, RpcError}

abbrev pub Bytes : Type 0
Bytes = List ℕ

-- The libraries: `as_ssz_bytes`, `from_ssz_bytes` and `ssz_fixed_len` of SSZ, the unsigned varints, and
-- the frames of snappy. `get_length` answers a number and the bytes behind it, `none` if more bytes
-- are needed. `read_exact` is given what a reader may see and the size of the buffer; it answers the
-- buffer and how far the reader has come.
pub record Wire : Type 0 where
  pub lengths : FixedLengths
  pub encode_status : StatusMessage → Bytes
  pub decode_status : Bytes → Option StatusMessage
  pub encode_u64 : ℕ → Bytes
  pub decode_u64 : Bytes → Option ℕ
  pub encode_ping : Ping → Bytes
  pub encode_meta_data : MetaData → Bytes
  pub decode_meta_data : Bytes → Option MetaData
  pub decode_error_list : Bytes → Option Bytes
  pub put_length : ℕ → Result Bytes (Unit {0})
  pub get_length : Bytes → Result (Option (ℕ × Bytes)) (Unit {0})
  pub compress : Bytes → Result Bytes (Unit {0})
  pub max_compress_len : ℕ → ℕ
  pub read_exact : Bytes → ℕ → Result (Bytes × ℕ) (Unit {0})

-- A call that writes: the bytes written, also by a call that fails.
abbrev pub Encoded : Type 0
Encoded = Bytes × Result (Unit {0}) RpcError

-- A call that reads: the state of the codec, the bytes left, and an item, if they hold a whole one.
abbrev pub Decoded : (Codec Item : Type 0) → Type 0
Decoded Codec Item = Outcome (Codec × Bytes × Result (Option Item) RpcError)
