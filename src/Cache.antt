-- ===== src/Cache.antt =====
-- src/Cache.hpp: the reference-counting cache. `Defs` has its state and its operations, cut into the
-- sections that run under one lock or as one atomic instruction.
pub mod Defs
mod Handles
pub mod Sizes
pub mod Invariant
pub mod Reserve
pub mod Evict
pub mod Put
pub mod Borrow
pub mod Threads
mod Tests
