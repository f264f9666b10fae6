-- ===== src/Stack/Ready.antt =====
-- A backend that has just been set up.
use workd.Prelude.{
  ℕ, ◌+◌, ◌*◌, ◌%◌, ◌^◌, ◌<◌, ◌≤◌, ◌≡◌, refl, Option, none, some, Bool, true, List, [], ◌∷◌, ◌++◌,
  map, length, length-append, arith, All,
}
use mathlib.Core.List.{append_assoc, append-nil}
use workd.Prelude.Int.{pos}
use workd.Prelude.Outcome.{ok}
use workd.Memory.Chunk.{Chunk}
use workd.Memory.Chunk.Laws.{Ready}
use workd.Memory.Cluster
use workd.Memory.Cluster.{Cluster}
use workd.Memory.Cluster.Add.{tiles, add_lem, tiles-Ready, length-tiles}
use workd.Memory.Cluster.Take.{get_buffers-zero}
use workd.Memory.Manager.{
  Manager, Block, RecvWr, recv_wr, register_rx_tx, get_channel_buffers, post_chunk, post_all,
  post_channel_cluster,
}
use workd.Completion.Create.{SrqAttr, set_nonblocking}
use workd.Device.Laws.{get_device-make_devices}
use workd.Device.{Port, Driver, open_device}
use workd.Socket.Send.{total}
use workd.Socket.Send.Deliver.{CanSend}
use workd.Stack.{Infiniband, Host, find_device, make_manager, post_received, create_infiniband}

-- A manager whose receive pool has `num` ready chunks of `size` bytes.
record Stocked (m : Manager) (size num : ℕ) : Type 0 where
  sized : m.channel.chunk_size ≡ size
  ready : All (Ready size) m.channel.free_chunks
  counted : length m.channel.free_chunks ≡ num

module _ (reg : ℕ → ℕ → Option ℕ) (key : ℕ → ℕ) (fuel : ℕ) (rx tx : Block) (size num : ℕ)
    (big : 0 < size) (narrow : size < 2 ^ 32) (registers : (a : ℕ) → reg a size ≡ some (key a))
    (enough : num < fuel) (small : size * num + size ≤ 2 ^ 32)
    (room : num * size ≤ length rx.bytes) where
  abbrev pool : Block → Cluster
  pool b = record { chunk_size = size; free_chunks = tiles key b.base b.bytes size num 0 }

  filled_lem :
      (b : Block)
      → 0 < b.base
      → Cluster.add reg b.base b.bytes fuel (Cluster.make size) num ≡ ok (pool b)
  unfolding Cluster.make
  filled_lem b given =
      add_lem reg key b.base b.bytes size big registers num fuel [] given enough small

  register_rx_tx-Stocked :
      0 < rx.base
      → 0 < tx.base
      → (m : Manager) × (register_rx_tx reg fuel true true rx tx size num num ≡ ok m)
        × Stocked m size num
  unfolding register_rx_tx
  register_rx_tx-Stocked rx_given tx_given = (
    record { channel = pool rx; rdma = none; send = pool tx },
    rw (filled_lem rx rx_given, filled_lem tx tx_given) refl,
    record {
      sized = refl;
      ready = tiles-Ready key rx.base rx.bytes size narrow num 0 (omega (arith, room));
      counted = length-tiles key rx.base rx.bytes size num 0;
    },
  )

module _ (accepts : List RecvWr → RecvWr → Bool) where
  post_all_lem :
      (srq : List RecvWr) (cs : List Chunk)
      → ((q : List RecvWr) (w : RecvWr) → length q < length srq + length cs → accepts q w ≡ true)
      → post_all accepts srq cs ≡ (pos 0, srq ++ map recv_wr cs)
  unfolding post_all post_chunk
  post_all_lem srq [] h = ground (arith, append-nil srq)
  post_all_lem srq (c ∷ cs) h =
      rw
        (
          h srq (recv_wr c) (omega arith),
          post_all,
          post_chunk,
          post_all_lem (srq ++ recv_wr c ∷ []) cs
              (λ q w less. h q w (omega (arith, less, length-append srq (recv_wr c ∷ [])))),
        )
        (rw append_assoc refl)

-- What the host must answer for the backend to start on the device `d` at its port `p`: all devices
-- can be opened, this one comes first and has an active port, a protection domain and a queue are given out, the event file
-- takes its flags, every region registers, malloc gives memory for both pools, of 2 MiB for
-- receiving, and the queue takes the first 256 requests.
pub record CanStart (h : Host) (fuel : ℕ) (device_name : List ℕ) : Type 0 where
  pub d : Driver
  pub others : List Driver
  pub p : Port
  pub srq : ℕ
  pub key : ℕ → ℕ
  pub devices : h.drivers ≡ d ∷ others
  pub named : device_name ≡ d.name
  pub opens : All (λ d. d.opens ≡ true) (d ∷ others)
  pub active : (open_device d).active_port ≡ some p
  pub has_pd : h.alloc_pd ≡ true
  pub nonblocking : set_nonblocking h.flags h.takes_flags ≡ pos 0
  pub registers : (a : ℕ) → h.reg a 8192 ≡ some (key a)
  pub rounds : 256 < fuel
  pub memory : length h.rx_block.bytes ≡ 2097152
  pub given : (0 < h.rx_block.base) × (0 < h.tx_block.base)
  pub queue : (attr : SrqAttr) → h.create_srq attr ≡ some srq
  pub requests : (q : List RecvWr) (w : RecvWr) → length q < 256 → h.accepts q w ≡ true

-- A backend that is up: it has the port's number, its shared receive queue holds a request for
-- every chunk of the receive pool, and it can send `bl`.
pub record Up (port : Port) (fuel : ℕ) (bl : List (List ℕ)) (ib : Infiniband) : Type 0 where
  pub at_port : ib.ib_physical_port ≡ port.port_num
  pub all_posted : ib.recv_queue ≡ map recv_wr ib.memory_manager.channel.free_chunks
  pub can_send : CanSend fuel ib.memory_manager bl

make_manager-Stocked :
    (h : Host) (fuel : ℕ) (key : ℕ → ℕ)
    → ((a : ℕ) → h.reg a 8192 ≡ some (key a))
    → 256 < fuel
    → length h.rx_block.bytes ≡ 2097152
    → 0 < h.rx_block.base
    → 0 < h.tx_block.base
    → (m : Manager) × (make_manager fuel h ≡ ok m) × Stocked m 8192 256
unfolding make_manager
make_manager-Stocked h fuel key registers enough room rx_given tx_given =
    register_rx_tx-Stocked h.reg key fuel h.rx_block h.tx_block 8192 256 (omega arith) (omega arith)
      registers enough (omega arith) (omega (arith, room)) rx_given tx_given

post_received_lem :
    (h : Host) (srq : ℕ) (m : Manager)
    → length m.channel.free_chunks ≡ 256
    → ((q : List RecvWr) (w : RecvWr) → length q < 256 → h.accepts q w ≡ true)
    → post_received h (some srq) m ≡ ok (map recv_wr m.channel.free_chunks)
unfolding post_received post_channel_cluster get_channel_buffers
post_received_lem h srq m counted takes =
    rw
      (
        get_buffers-zero m.channel,
        post_received,
        post_all_lem h.accepts [] m.channel.free_chunks
            (λ q w less. takes q w (omega (arith, less, counted))),
      )
      refl

found :
    (h : Host) (device_name : List ℕ) (d : Driver) (others : List Driver)
    → h.drivers ≡ d ∷ others
    → device_name ≡ d.name
    → All (λ d. d.opens ≡ true) (d ∷ others)
    → find_device h device_name ≡ ok (open_device d)
unfolding find_device
found h device_name d others e named opens = rw (e, named) (get_device-make_devices d others opens)

abbrev started :
    {h : Host}
    → {fuel : ℕ} → {device_name : List ℕ} → CanStart h fuel device_name
    → Manager
    → Infiniband
started c m = record {
  device = open_device c.d;
  ib_physical_port = c.p.port_num;
  max_recv_wr = (open_device c.d).driver.max_srq_wr % 2 ^ 32;
  max_cqe = (open_device c.d).driver.max_cqe % 2 ^ 32;
  max_send_wr = (open_device c.d).driver.max_qp_wr % 2 ^ 32;
  max_inline_data = 128;
  max_sge = 1;
  memory_manager = m;
  srq = some c.srq;
  recv_queue = map recv_wr m.channel.free_chunks;
}

create_infiniband-started :
    (h : Host) (fuel : ℕ) (device_name : List ℕ) (c : CanStart h fuel device_name) (m : Manager)
    → make_manager fuel h ≡ ok m
    → length m.channel.free_chunks ≡ 256
    → create_infiniband fuel h device_name ≡ ok (started c m)
unfolding create_infiniband
create_infiniband-started h fuel device_name c m made counted =
    rw
      (
        found h device_name c.d c.others c.devices c.named c.opens,
        c.active,
        c.has_pd,
        c.nonblocking,
        made,
        c.queue,
        post_received_lem h c.srq m counted c.requests,
        create_infiniband,
      )
      refl

-- The set-up makes a backend that can send and be sent to, if register_rx_tx, which has no return
-- statement and whose result is not read, is taken to return: on a host whose devices can all be
-- opened, the first of which has the name asked for and an active port, that gives out a protection domain and a shared receive queue,
-- lets the event file be made non-blocking, registers every region of 8 KiB, has memory for both pools,
-- 2 MiB for the receive pool, and takes the first 256 receive requests (CanStart), and with more than 256 rounds
-- of fuel, `create_infiniband` returns a backend whose port is the device's active port, whose
-- shared receive queue has a request for each of the 256 chunks of the receive pool, in their
-- order, and that can send (CanSend) any message of 1 byte to 2 MiB in buffers of `uint32_t` length
-- and shorter than the fuel.
pub create_infiniband-Up :
    (h : Host) (fuel : ℕ) (device_name : List ℕ) (bl : List (List ℕ))
    (c : CanStart h fuel device_name)
    → 0 < total bl
    → total bl ≤ 2097152
    → All (λ b. (length b < 2 ^ 32) × (length b < fuel)) bl
    → (ib : Infiniband) × (create_infiniband fuel h device_name ≡ ok ib) × Up c.p fuel bl ib
create_infiniband-Up h fuel device_name bl c some_bytes few buffers =
    let (m, made, stocked) =
      make_manager-Stocked h fuel c.key c.registers c.rounds c.memory c.given.0 c.given.1 in
    (
      started c m,
      create_infiniband-started h fuel device_name c m made stocked.counted,
      record {
        at_port = refl;
        all_posted = refl;
        can_send = record {
          sized = omega (arith, stocked.sized);
          ready = rw stocked.sized stocked.ready;
          not_empty = some_bytes;
          countable = rw stocked.sized (omega (arith, few));
          buffers = buffers;
          fits = rw (stocked.sized, stocked.counted) few;
        };
      },
    )
