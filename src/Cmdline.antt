-- ===== src/Cmdline.antt =====
-- The command line: the template `cmdline` of src/cmdline.hpp, and the options of the server, from
-- src/HTTP_cmdline.cpp and data/HTTP_cmdline.def.
pub mod Parse
pub mod Table
pub mod Given
pub mod Names
mod Tests
