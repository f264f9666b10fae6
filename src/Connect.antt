-- ===== src/Connect.antt =====
-- How two ends come to a connection: Infiniband::create_queue_pair and class QueuePair, which set up
-- queue pairs, and (in Connect/Handshake.antt) the exchange that moves them.
pub mod QueuePair
pub mod Handshake
pub mod Paired
pub mod Queries
