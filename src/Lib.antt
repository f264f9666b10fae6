-- ===== src/Lib.antt =====
-- A model of the RDMA messenger backend in rdma/ and of the stand-alone RDMA client in debug/.
--
-- The backend sends and receives byte streams over InfiniBand reliable connections. A memory manager
-- (rdma/Infiniband.h) cuts registered memory into chunks and keeps them in pools; a connected socket
-- (rdma/RDMAConnectedSocketImpl.cc) copies messages into chunks and posts these, and reads what the
-- completions bring; a worker (rdma/RDMAStack.cc) returns the chunks of finished requests. All this
-- starts on the active port of a device (rdma/ResourceManager.h) with create_infiniband. Two ends
-- find each other by a text message in a datagram (rdma/Infiniband.cc), which connect
-- (rdma/RDMAStack.cc) and accept (rdma/RDMAServerSocketImpl.cc) exchange before they move their queue
-- pairs to RTS. The client has a context of verbs resources (debug/rdma_socket.c) and a session on
-- top of it (debug/rdma_session.cpp).
--
-- Files:
--   Prelude, Prelude/*      Boolean tests, lists, `uint32_t` and `size_t` arithmetic, the signed
--                           results, and the outcome of code that may fault or not end
--   Memory/Chunk            class MemoryManager::Chunk: read, write, full, set_offset
--   Memory/Cluster          class MemoryManager::Cluster: add, take_back, get_buffers
--   Memory/Manager          the rest of MemoryManager, get_tx_buffers, post_chunk and
--                           post_channel_cluster
--   Completion              get_cq_event, ack_events, poll_cq; Completion/TxEvent: handle_tx_event;
--                           Completion/Create: the creation of channels and queues
--   Socket/Send             RDMAConnectedSocketImpl::send
--   Socket/Recv             RDMAConnectedSocketImpl::read and read_buffers
--   Backend/Run             the steps of send and handle_tx_event in any order, over one state
--   Device                  rdma/ResourceManager.h: Port, Device, DeviceList
--   Stack                   create_infiniband, RDMAStack's cores, the worker's initialize, listen and
--                           connect(addr), RDMAServerSocketImpl::listen
--   Text                    the conversions of sprintf and sscanf that the messages use; Text/Fields:
--                           texts of numbers with colons between them
--   Wire/Gid, Syn, Udp      the GID's text, IBSYNMsg's text, send_udp_msg and recv_udp_msg
--   Connect/QueuePair       QueuePair and create_queue_pair; Connect/Handshake: the socket's
--                           constructor, activate, connect and accept; Connect/Queries: the
--                           queries of QueuePair
--   Debug/Context           init_rdma_context and rdma_close_ctx
--   Debug/Verbs             rdma_post_send, rdma_query_cq, rdma_post_recv, rdma_reg_mr, rdma_dereg_mr
--   Debug/Session, Bulk     class rdma_session: query, read, send, latency, rdma, bulk
--   Debug/Exchange          info_con with its text, rdma_client_exch_dest, rdma_server_exch_dest and
--                           rdma_connect_ctx; Debug/Setup: create_context
--   Debug/Slices            the texts of start_rw and start_remote
--   Debug/Buffers           reg_mem, post_recv and close of rdma_session
--   Debug/Door              the opening of a session: the constructors, init, door, start_rw, the send
--                           of a buffer, rdma_portal::accept
--   Debug/QuerySr           query_sr of rdma_session
--   Debug/Devices           open_server, link_layer_str and get_device of debug/rdma_socket.c
--   Debug/HugePages         malloc_huge_pages and free_huge_pages
--   Debug/Programs/*        Pattern, Transfer, Client, Server: the test data, the transfer, client and
--                           server of debug/xx.cpp; Announce: reg_memory and dereg_memory of
--                           debug/regread.cpp and move; Collect: collect of debug/migration.cpp
--   Examples, */Tests       the theorems at concrete inputs
--
-- Below a file stand the files with its theorems. State is passed explicitly: a chunk holds the bytes
-- of its memory, a vector is a list whose end is the vector's back, and a pointer to a chunk in
-- a work request is the chunk. What the verbs library, the sockets and the allocator do is an
-- argument: which calls the device takes, what each poll brings, what memory holds. Code that
-- runs into undefined behaviour or a failed assertion has the outcome `fault`, with one exception: a
-- function that ends with no return statement and whose result no caller reads (register_rx_tx, and
-- client and server of debug/xx.cpp) is taken to return.
--
-- Bounds and fuel: `uint32_t` wraps at 2 ^ 32, `size_t` at 2 ^ 64. The loop of `add` takes one
-- round for each chunk and one more; the copying of a buffer in `send` takes at most a round for
-- each byte and one more, since each `write` into a chunk with room takes a byte at least; the same
-- holds of the registering loop of `bulk`, whose waiting loop takes one for each poll. The loop of
-- start_rw has 512 rounds and one that ends it. Other loops that wait for the device run over the
-- list of what it brings, and a run that is not over at the end of the list is `spent`.
--
-- Not modelled: logging, threads, the resolution of host names and the name of a peer, the addresses
-- of a session's small arrays (qbuf, raddrs, rkeys), and of the programs of debug/ the clock, the output and the command
-- line; the main functions of debug/cpyread.cpp, debug/regread.cpp and debug/migration.cpp call
-- members that rdma_session does not have. Aliasing of a chunk that stands in a pool and in a queue
-- at once is not modelled as shared memory. The conversions of sscanf start at the first digit:
-- signs, white space and a prefix 0x do not occur in what the code prints.
pub mod Prelude
pub mod Memory
pub mod Device
pub mod Stack
pub mod Text
pub mod Wire
pub mod Completion
pub mod Socket
pub mod Debug
pub mod Connect
pub mod Backend
pub mod Examples
