-- ===== src/Debug.antt =====
-- The stand-alone client of debug/.
pub mod Context
pub mod Verbs
pub mod Session
pub mod Bulk
pub mod Exchange
pub mod Setup
pub mod Slices
pub mod HugePages
pub mod Buffers
pub mod Door
pub mod Devices
pub mod QuerySr
pub mod Programs
