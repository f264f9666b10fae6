-- ===== src/Wire.antt =====
-- What two ends tell each other before their queue pairs are connected. `Wire/Gid` has the text of
-- a GID, `Wire/Syn` the message of rdma/Infiniband.cc, `Wire/Udp` its exchange over UDP.
pub mod Gid
pub mod Syn
pub mod Udp
