-- ===== src/Memory.antt =====
-- The registered memory of rdma/Infiniband.h: class MemoryManager with its classes Chunk and
-- Cluster. `Memory/Chunk` has the cursor over one registered buffer, `Memory/Cluster` the pool of
-- free chunks, `Memory/Manager` the pools of the manager; their children prove.
pub mod Chunk
pub mod Cluster
pub mod Manager
