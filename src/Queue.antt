-- ===== src/Queue.antt =====
-- The queues of src/ConcurrentQueue.hpp.
pub mod LockFree
pub mod Locked
pub mod Order
pub mod Wakeups
pub mod Store
mod Tests
