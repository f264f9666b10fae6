-- ===== src/Debug/Programs.antt =====
-- The programs of debug/ that drive a session: xx.cpp, cpyread.cpp, regread.cpp and migration.cpp.
pub mod Pattern
pub mod Transfer
pub mod Collect
pub mod Announce
pub mod Client
pub mod Server
