-- ===== src/Http/Response.antt =====
-- The handling of a request in src/HTTP_2616_Server_Work.cpp: what the cache may serve, what goes into
-- it, and how the response comes about.
pub mod Serve
pub mod Store
pub mod Writes
pub mod Reset
pub mod Borrow
mod Tests
pub mod Browse
pub mod Headers
pub mod Read
pub mod Returns
pub mod Prepare
pub mod Methods
pub mod Exchange
