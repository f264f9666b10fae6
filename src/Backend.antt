-- ===== src/Backend.antt =====
-- The backend as a whole: messages sent, refused and completed in any order, and a message's way to
-- the reader at the other end.
pub mod Run
pub mod Census
pub mod Stream
pub mod Carry
