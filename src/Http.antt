-- ===== src/Http.antt =====
-- netty/http: the headers of a message, and the parser of a connection.
pub mod Headers
pub mod Message
pub mod Parse
