-- ===== src/Http/Request.antt =====
-- The request: its line and its headers.
pub mod Escape
pub mod Line
pub mod Uri
