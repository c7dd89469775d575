-- ===== src/Http.antt =====
-- The HTTP part of the server: constants, parsing, the cache entry and the handling of a request.
pub mod Constants
pub mod Entry
pub mod Request
pub mod Lines
pub mod Response
mod Tests
pub mod Output
pub mod Conn
