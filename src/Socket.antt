-- ===== src/Socket.antt =====
-- class RDMAConnectedSocketImpl of rdma/RDMAStack.h and rdma/RDMAConnectedSocketImpl.cc.
-- `Socket/Send` sends a message, `Socket/Recv` reads.
pub mod Send
pub mod Recv
