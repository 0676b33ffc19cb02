-- ===== src/Rpc.antt =====
-- protorpc: the messages, the codec that frames them on a connection, the client's channel, the server,
-- and one call through both.
pub mod Message
pub mod Codec
pub mod Controller
pub mod Channel
pub mod Server
pub mod Call
