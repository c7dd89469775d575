-- ===== src/Server.antt =====
-- The server itself: src/Server.hpp, src/CachingServer.hpp, src/root_safety.cpp and src/ThreadPool.hpp.
pub mod Start
pub mod Started
pub mod Serve
pub mod Passes
pub mod Pool
mod Tests
