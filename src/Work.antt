-- ===== src/Work.antt =====
-- `rduntil` and `wruntil` of src/Work.cpp: the loops over `read` and `write`. What the system answers
-- is a list, an argument; a loop that has used it up is blocked, which is `none`.
mod Tests
pub mod Write
pub mod Read
