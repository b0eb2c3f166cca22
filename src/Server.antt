-- ===== src/Server.antt =====
-- src/server: the wire protocol and the server.
pub mod Protocol
pub mod Handler
pub mod Connection
pub mod Run
