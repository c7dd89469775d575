-- ===== src/Sched.antt =====
-- Pieces of work: src/FindWork_prealloc.hpp finds them, src/Scheduler.cpp queues the ones that are
-- ready, src/Worker.cpp runs them.
pub mod Find
pub mod Poll
pub mod Handlers
pub mod Workers
mod Tests
