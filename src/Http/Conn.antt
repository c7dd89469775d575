-- ===== src/Http/Conn.antt =====
-- A connection: the state of HTTP_Work (src/HTTP_Work.hpp) and what the two kinds of work that share it,
-- src/HTTP_Server_Work.cpp and src/HTTP_Client_Work.cpp, do with it.
pub mod State
pub mod Server
pub mod Plain
pub mod Sending
pub mod Client
pub mod Delivered
pub mod Receive
pub mod Bodies
pub mod Exchange
pub mod Relay
pub mod Shifted
mod Tests
