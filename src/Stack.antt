-- ===== src/Stack.antt =====
-- The set-up of the backend: class Infiniband's constructor and create_infiniband of
-- rdma/Infiniband.h, and RDMAStack's constructor and get_cpuid with the worker's `initialize`,
-- `listen` and the plain `connect` (rdma/RDMAStack.h, rdma/RDMAStack.cc,
-- rdma/RDMAServerSocketImpl.cc).
pub mod Ready
pub mod Opening
use workd.Prelude.{
  ℕ, suc, ◌+◌, ◌-◌, ◌*◌, ◌%◌, ◌^◌, Option, none, some, Bool, true, false, List, [], ◌∷◌, ◌==◌,
  get_elem?, length, if◌then◌else◌,
}
use workd.Prelude.Int.{ℤ, pos, negsuc, minus_one, is_neg, is_zero}
use workd.Prelude.Outcome.{Outcome, ok, fault, ◌>>=◌}
use workd.Memory.Manager.{Manager, Block, RecvWr, register_rx_tx, post_channel_cluster}
use workd.Completion.Create.{
  Pointer, SrqAttr, set_nonblocking, create_shared_receive_queue, ChannelAnswers, QueueAnswers,
  create_comp_channel, create_comp_queue,
}
use workd.Device.{Port, Driver, Device, make_devices, get_device}

-- `srq` is none where the queue could not be created.
pub record Infiniband : Type 0 where
  pub device : Device
  pub ib_physical_port : ℕ
  pub max_recv_wr : ℕ
  pub max_cqe : ℕ
  pub max_send_wr : ℕ
  pub max_inline_data : ℕ
  pub max_sge : ℕ
  pub memory_manager : Manager
  pub srq : Option ℕ
  pub recv_queue : List RecvWr

-- What the set-up meets: the devices, whether a protection domain is given out, the flags of the
-- device's event file, the regions' keys, what `malloc` gives the two pools, and the shared receive
-- queue.
pub record Host : Type 0 where
  pub drivers : List Driver
  pub alloc_pd : Bool
  pub flags : Option ℕ
  pub takes_flags : ℕ → Bool
  pub reg : ℕ → ℕ → Option ℕ
  pub rx_block : Block
  pub tx_block : Block
  pub create_srq : SrqAttr → Option ℕ
  pub accepts : List RecvWr → RecvWr → Bool

-- A constructor's `assert`.
abbrev holds : Bool → Outcome (Unit {0})
holds true = ok tt
holds false = fault

abbrev pointed {ℓ} : {A : Type ℓ} → Option A → Outcome A
pointed none = fault
pointed (some a) = ok a

-- ProtectionDomain's constructor.
alloc_pd : Bool → Outcome (Unit {0})
alloc_pd given = holds given

-- The posting of the 256 chunks, through a null queue undefined; the result is ignored.
post_received : Host → Option ℕ → Manager → Outcome (List RecvWr)
unfolding post_channel_cluster
post_received h none m = fault
post_received h (some srq) m = post_channel_cluster h.accepts m [] >>= λ r. ok r.1

-- The pools: 256 chunks of 8 KiB each. The device and the domain have been found, and the result is
-- not read.
make_manager : ℕ → Host → Outcome Manager
unfolding register_rx_tx
make_manager fuel h = register_rx_tx h.reg fuel true true h.rx_block h.tx_block (8 * 1024) 256 256

-- `ResourceManager::refresh`, and the device of the name.
find_device : Host → List ℕ → Outcome Device
find_device h device_name = make_devices h.drivers >>= λ devices. get_device devices device_name

-- The constructor. A null device fails the assertion, and the
-- `max` fields are `uint32_t`.
unfoldable pub create_infiniband : ℕ → Host → List ℕ → Outcome Infiniband
unfolding find_device alloc_pd make_manager post_received create_shared_receive_queue
create_infiniband fuel h device_name = do
  device ← find_device h device_name
  port ← pointed device.active_port
  _ ← alloc_pd h.alloc_pd
  _ ← holds (is_zero (set_nonblocking h.flags h.takes_flags))
  memory_manager ← make_manager fuel h
  let srq = create_shared_receive_queue h.create_srq (device.driver.max_srq_wr % 2 ^ 32) 1
  recv_queue ← post_received h srq memory_manager
  ok (record {
    device = device;
    ib_physical_port = port.port_num;
    max_recv_wr = device.driver.max_srq_wr % 2 ^ 32;
    max_cqe = device.driver.max_cqe % 2 ^ 32;
    max_send_wr = device.driver.max_qp_wr % 2 ^ 32;
    max_inline_data = 128;
    max_sge = 1;
    memory_manager = memory_manager;
    srq = srq;
    recv_queue = recv_queue;
  })

-- The loop over the configured cores; `parse` is `strict_strtol` with base 10, none where it sets
-- `err`.
pub read_coreids : (List ℕ → Option ℤ) → List (List ℕ) → List ℤ
read_coreids parse [] = []
read_coreids parse (s ∷ corestrs) = elim (parse s) [
  | none ↦ read_coreids parse corestrs
  | some coreid ↦ coreid ∷ read_coreids parse corestrs
]

-- An `int` where a `size_t` is wanted.
to_size : ℤ → ℕ
to_size (pos n) = n
to_size (negsuc n) = 2 ^ 64 - suc n

unfoldable pub get_cpuid : List ℤ → ℤ → Outcome ℤ
unfolding to_size
get_cpuid [] id = ok minus_one
get_cpuid (c ∷ cs) id = pointed (get_elem? (c ∷ cs) (to_size id % length (c ∷ cs)))

-- What a socket call finds: the descriptor that `socket` returned, and the answers of `setsockopt`
-- and `bind`.
pub record Answers : Type 0 where
  pub socket : Option ℕ
  pub setsockopt : Bool
  pub bind : Bool

close : ℕ → List ℕ → List ℕ
close fd [] = []
close fd (f ∷ fds) = if f == fd then fds else f ∷ close fd fds

-- What a call leaves: its result, the member `server_setup_socket`, and the descriptors that are
-- open.
pub record Setup : Type 0 where
  pub result : ℤ
  pub server_setup_socket : ℤ
  pub fds : List ℕ

-- The code behind `err`.
give_up : ℕ → List ℕ → Setup
unfolding close
give_up fd fds = record { result = minus_one; server_setup_socket = minus_one; fds = close fd fds }

-- RDMAServerSocketImpl::listen, where `fds` are open.
pub server_listen : Answers → List ℕ → Setup
unfolding give_up
server_listen a fds = elim a.socket [
  | none ↦ record { result = minus_one; server_setup_socket = minus_one; fds = fds }
  | some fd ↦
      if a.setsockopt
      then (if a.bind
          then record { result = pos 0; server_setup_socket = pos fd; fds = fd ∷ fds }
          else give_up fd (fd ∷ fds))
      else give_up fd (fd ∷ fds)
]

-- RDMAWorker::listen: the result, the descriptor of the ServerSocket that is handed out, if one is,
-- and the descriptors that are open.
unfoldable pub listen : Answers → List ℕ → ℤ × Option ℤ × List ℕ
unfolding server_listen
listen a fds =
    let s = server_listen a fds in
    if is_neg s.result then (s.result, none, s.fds) else (pos 0, some s.server_setup_socket, s.fds)

-- RDMAWorker::connect with an address alone: the member `client_setup_socket` and the descriptors
-- that are open. That `::connect` failed is only logged.
unfoldable pub setup_client : Option ℕ → Bool → List ℕ → ℤ × List ℕ
setup_client none connects fds = (minus_one, fds)
setup_client (some fd) connects fds = (pos fd, fd ∷ fds)

-- What `initialize` leaves in the worker.
pub record Worker : Type 0 where
  pub tx_cc : Pointer
  pub tx_cq : Option Pointer

-- RDMAWorker::initialize: the channel's file goes into the event center.
unfoldable pub initialize : ChannelAnswers → QueueAnswers → Outcome Worker
unfolding create_comp_channel create_comp_queue
initialize ca qa = do
  tx_cc ← create_comp_channel ca
  tx_cq ← create_comp_queue tx_cc qa
  channel ← pointed tx_cc
  ok (record { tx_cc = channel; tx_cq = tx_cq })
