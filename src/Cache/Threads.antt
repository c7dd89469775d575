-- ===== src/Cache/Threads.antt =====
-- The cache of src/Cache.hpp under any number of worker threads. A thread stands between two sections
-- of a call, and the threads take turns in any order, a section at a time.
mod Refs
pub mod Steps
pub mod Local
mod Sum
pub mod Sound
