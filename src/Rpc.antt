-- ===== src/Rpc.antt =====
-- rpc/: the request/response protocol of the consensus layer.
pub mod Methods
pub mod Protocol
pub mod Inbound
pub mod Outbound
pub mod Handler
pub mod Behaviour
pub mod Codec
