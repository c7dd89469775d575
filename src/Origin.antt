-- ===== src/Origin.antt =====
-- HTTP_Origin_Server, in src/HTTP_Origin_Server.cpp: resources as files.
pub mod Files
pub mod Put
pub mod Written
pub mod Request
pub mod Fetched
pub mod Listing
pub mod Gzip
mod Tests
