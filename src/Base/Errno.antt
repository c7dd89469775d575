-- ===== src/Base/Errno.antt =====
-- The values of <errno.h> that src/HTTP_2616_Server_Work.cpp and src/HTTP_Origin_Server.cpp test for.
use filth.Base.{ℕ}

abbrev pub eperm : ℕ
eperm = 1

abbrev pub enoent : ℕ
enoent = 2

abbrev pub eacces : ℕ
eacces = 13

abbrev pub eisdir : ℕ
eisdir = 21

abbrev pub espipe : ℕ
espipe = 29
