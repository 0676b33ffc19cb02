-- ===== src/Tcp.antt =====
-- netty: TCP connections, how a client gets one, and a server's table of them.
pub mod Connection
pub mod Connector
pub mod Server
