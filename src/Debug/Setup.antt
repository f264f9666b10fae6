-- ===== src/Debug/Setup.antt =====
-- create_context of debug/rdma_socket.c, which rdma_socket and rdma_socket_p call.

pub mod Linked
use workd.Prelude.{
  ℕ, ◌%◌, ◌^◌, Option, none, some, not, Bool, true, false, ◌&&◌, List, [], ◌∷◌, ◌==◌, if◌then◌else◌,
}
use workd.Prelude.Int.{ℤ, pos, negsuc, is_zero}
use workd.Prelude.Outcome.{Outcome, ok, ◌>>=◌}
use workd.Wire.Gid.{Gid}
use workd.Device.{same_text}
use workd.Connect.QueuePair.{Call, Qp, zero_gid}
use workd.Debug.Context
use workd.Debug.Context.{Context, init_rdma_context}
use workd.Debug.Verbs.{Registration, InitParams, Mem, rdma_reg_mr}
use workd.Debug.Exchange.{
  InfoCon, Memory, Stream, Params, rdma_connect_ctx, rdma_client_exch_dest, rdma_server_exch_dest,
}

-- What the set-up meets: the names of the devices, what `init_rdma_context` is answered, whether a
-- notification can be asked for, the port's LID and whether it is an InfiniBand port, the port's
-- GIDs, the queue pair that was made, the memory and its registration, what lrand48 gave, what
-- stood in `my_info`, and the exchange.
pub record Machine : Type 0 where
  pub devices : Option (List (List ℕ))
  pub answers : Context.Answers
  pub notifies : Bool
  pub lid : ℕ
  pub infiniband : Bool
  pub query_gid : ℕ → Option Gid
  pub qp : Qp
  pub memalign : Option ℕ
  pub reg : ℕ → ℕ → Registration
  pub random : ℕ
  pub unset : InfoCon
  pub stream : Stream
  pub memory : Memory
  pub takes : List Call → Call → Bool

-- The device of the name, or the first.
unfoldable pub find_device : List (List ℕ) → Option (List ℕ) → Option (List ℕ)
find_device [] ib_devname = none
find_device (d ∷ ds) none = some d
find_device (d ∷ ds) (some name) = if same_text d name then some d else find_device ds (some name)

-- `my_info.gid`: all zero where the index is negative.
unfoldable pub local_gid : Machine → ℤ → Option Gid
local_gid m (pos i) = m.query_gid i
local_gid m (negsuc i) = some zero_gid

-- `rw`, which stays a null pointer where the size is 0; the outer `none` is a failure.
unfoldable pub local_mem : Machine → ℕ → Outcome (Option (Option Mem))
local_mem m size = if size == 0 then ok (some none) else elim m.memalign [
  | none ↦ ok none
  | some tbuf ↦
      rdma_reg_mr m.reg tbuf size >>= λ r. ok (elim r [ none ↦ none | some mem ↦ some (some mem) ])
]

-- `my_info` at last: without `rw`, the key and the address are what stood there.
unfoldable pub local_info : Machine → Gid → Option Mem → InfoCon
local_info m gid mem = record {
  lid = m.lid;
  qpn = m.qp.qp_num;
  psn = m.random % 2 ^ 24;
  rkey = elim mem [ none ↦ m.unset.rkey | some l ↦ l.rkey ];
  addr = elim mem [ none ↦ m.unset.addr | some l ↦ l.buf ];
  gid = gid;
}

pub record Prepared : Type 0 where
  pub context : Context
  pub my_info : InfoCon
  pub mem : Option Mem

-- From the open context on to `my_info`.
unfoldable pub describe : Machine → InitParams → Context → Outcome (Option Prepared)
unfolding local_gid local_mem local_info
describe m params ctx =
    if m.infiniband && m.lid == 0 then ok none else elim (local_gid m params.gidx) [
      | none ↦ ok none
      | some gid ↦ local_mem m params.mem_size >>= λ r. ok (elim r [
        | none ↦ none
        | some mem ↦ some (record { context = ctx; my_info = local_info m gid mem; mem = mem })
      ])
    ]

-- All that comes in front of the exchange.
unfoldable pub prepare : Machine → InitParams → Outcome (Option Prepared)
unfolding find_device describe
prepare m params = elim m.devices [
  | none ↦ ok none
  | some dev_list ↦ elim (find_device dev_list params.ib_devname) [
    | none ↦ ok none
    | some ib_dev ↦ elim (init_rdma_context m.answers params.rx_depth params.use_event).0 [
      | none ↦ ok none
      | some ctx ↦ if params.use_event && not m.notifies then ok none else describe m params ctx
    ]
  ]
]

-- The context, with the fields that `create_context` fills.
pub record Connected : Type 0 where
  pub prepared : Prepared
  pub remote_info : InfoCon
  pub qp : Qp

-- The arguments of `rdma_connect_ctx` on either side.
abbrev pub connect_params : InitParams → Prepared → Params
connect_params params p = record {
  ib_port = p.context.ib_port;
  my_psn = p.my_info.psn;
  mtu = params.mtu;
  sl = 0;
  gidx = params.gidx;
}

-- The client moves its queue pair behind the exchange.
finish_client : Machine → InitParams → Prepared → Option InfoCon → Option Connected
finish_client m params p none = none
finish_client m params p (some remote_info) =
    let (r, qp) = rdma_connect_ctx m.takes m.qp (connect_params params p) remote_info in
    if is_zero r then some (record { prepared = p; remote_info = remote_info; qp = qp }) else none

finish_server : Prepared → Qp → Option InfoCon → Option Connected
finish_server p qp none = none
finish_server p qp (some remote_info) =
    some (record { prepared = p; remote_info = remote_info; qp = qp })

exchange : Machine → Bool → InitParams → Prepared → Outcome (Option Connected)
unfolding finish_client finish_server
exchange m false params p =
    rdma_client_exch_dest m.stream m.memory p.my_info >>= λ e. ok (finish_client m params p e.0)
exchange m true params p =
    rdma_server_exch_dest m.takes m.stream m.memory m.qp (connect_params params p) p.my_info
    >>= λ e. ok (finish_server p e.1 e.0.0)

pub create_context : Machine → Bool → InitParams → Outcome (Option Connected)
unfolding prepare exchange
create_context m is_server params =
    prepare m params >>= λ r. elim r [ none ↦ ok none | some p ↦ exchange m is_server params p ]
