-- ===== src/Debug/Verbs.antt =====
-- The data path of debug/rdma_socket.c: rdma_socket, rdma_socket_p, rdma_post_send, rdma_query_cq,
-- rdma_post_recv, rdma_reg_mr and rdma_dereg_mr. Which calls the device takes, and what its queues
-- bring, are parameters.
pub mod Laws
use workd.Prelude.{
  ℕ, zero, suc, ◌+◌, ◌%◌, ◌^◌, Option, none, some, Bool, true, false, ◌&&◌, List, [], ◌∷◌, ◌++◌,
  ◌==◌, length, u32, if◌then◌else◌,
}
use workd.Prelude.Int.{ℤ, pos, minus_one}
use workd.Prelude.Outcome.{Outcome, ok, fault, spent, ◌>>=◌}

-- `init_params`; a device name of `none` is NULL.
pub record InitParams : Type 0 where
  pub port : ℕ
  pub ib_port : ℕ
  pub gidx : ℤ
  pub use_event : Bool
  pub rx_depth : ℕ
  pub sockfd : ℤ
  pub mem_size : ℕ
  pub mtu : ℕ
  pub ib_devname : Option (List ℕ)
  pub sr : ℕ

-- The parameters with which `rdma_socket` calls `create_context`; two fields stay as the memory
-- was. IBV_MTU_1024 is 3.
abbrev default_params : InitParams → InitParams
default_params unset = record unset {
  port = 18185;
  ib_port = 1;
  gidx = minus_one;
  use_event = false;
  rx_depth = 16000;
  mtu = 3;
  ib_devname = none;
}

-- Those with which `rdma_socket_p` does.
unfoldable pub socket_params : InitParams → InitParams
socket_params p = record p {
  port = if p.port == 0 then 18185 else p.port;
  ib_port = if p.ib_port == 0 then 1 else p.ib_port;
  mtu = 3;
  rx_depth = 16000;
}

-- `mr` with its keys.
pub record Mem : Type 0 where
  pub buf : ℕ
  pub size : ℕ
  pub lkey : ℕ
  pub rkey : ℕ

pub data Opcode : Type 0 where
  op_send op_rdma_write other_op : Opcode

pub record Task : Type 0 where
  pub mem : Mem
  pub opcode : Opcode
  pub size : ℕ
  pub rkey : ℕ
  pub remote_addr : ℕ
  pub id : ℕ

-- What `ibv_post_send` and `ibv_post_recv` are given, with the one element written out. The
-- remote half is 0 for a send and a receive.
pub record Wr : Type 0 where
  pub wr_id : ℕ
  pub addr : ℕ
  pub length : ℕ
  pub lkey : ℕ
  pub opcode : Opcode
  pub remote_addr : ℕ
  pub rkey : ℕ

-- `remote_info` of the context: the address and key that the peer has named.
pub record RemoteInfo : Type 0 where
  pub addr : ℕ
  pub rkey : ℕ

is_send : Opcode → Bool
is_send op_send = true
is_send _ = false

-- The remote half of a request.
remote : RemoteInfo → Task → ℕ × ℕ
unfolding is_send
remote info t =
    if is_send t.opcode
    then (0, 0)
    else if t.rkey == 0 && t.remote_addr == 0
    then (info.addr, info.rkey)
    else (t.remote_addr, t.rkey)

send_request : RemoteInfo → Task → Wr
unfolding remote
send_request info t = record {
  wr_id = t.id;
  addr = t.mem.buf;
  length = u32 t.size;
  lkey = t.mem.lkey;
  opcode = t.opcode;
  remote_addr = (remote info t).0;
  rkey = (remote info t).1;
}

module _ (takes : List Wr → Wr → Bool) where
  -- The requests that the queue has taken, before and after.
  unfoldable pub rdma_post_send : RemoteInfo → List Wr → Task → ℤ × List Wr
  unfolding send_request
  rdma_post_send info sq t =
      if takes sq (send_request info t)
      then (pos 0, sq ++ send_request info t ∷ [])
      else (minus_one, sq)

  -- `refused` is the code of a call that the device does not take, which is not 0.
  unfoldable pub rdma_post_recv : ℕ → List Wr → Task → ℤ × List Wr
  rdma_post_recv refused rq t =
      let wr : Wr = record {
        wr_id = t.id;
        addr = t.mem.buf;
        length = u32 t.mem.size;
        lkey = t.mem.lkey;
        opcode = other_op;
        remote_addr = 0;
        rkey = 0;
      } in
      if takes rq wr then (pos 0, rq ++ wr ∷ []) else (pos (suc refused), rq)

-- What `ibv_reg_mr` and the calloc behind it give: no region, a region without memory for its
-- record, or both, with the two keys.
pub data Registration : Type 0 where
  mr_refused : Registration
  mr_unrecorded : Registration
  mr_recorded : ℕ × ℕ → Registration

-- `reg` gives it from the address and the size. The result of calloc is not checked.
unfoldable pub rdma_reg_mr : (ℕ → ℕ → Registration) → ℕ → ℕ → Outcome (Option Mem)
rdma_reg_mr reg buf size = elim (reg buf size) [
  | mr_refused ↦ ok none
  | mr_unrecorded ↦ fault
  | mr_recorded (lkey, rkey) ↦
      ok (some (record { buf = buf; size = size; lkey = lkey; rkey = rkey }))
]

-- `dereg` is whether `ibv_dereg_mr` succeeds.
unfoldable pub rdma_dereg_mr : (Mem → Bool) → Mem → ℤ
rdma_dereg_mr dereg m = if dereg m then pos 0 else minus_one

pub record Wc : Type 0 where
  pub wr_id : ℕ
  pub byte_len : ℕ
  pub success : Bool

-- One call of `ibv_poll_cq`: completions, or an error.
abbrev pub Poll : Type 0
Poll = Option (List Wc)

-- What the two completion queues still bring.
pub record Queues : Type 0 where
  pub send_cq : List Poll
  pub recv_cq : List Poll

all_success : List Wc → Bool
all_success [] = true
all_success (w ∷ ws) = w.success && all_success ws

-- The loop of `rdma_query_cq`, and the check behind it; the result, the array, and what comes
-- next. A run that is not over with the polls is `spent`.
poll : List Poll → Outcome (ℤ × List Wc × List Poll)
unfolding all_success
poll [] = spent
poll (none ∷ ps) = ok (minus_one, [], ps)
poll (some [] ∷ ps) = poll ps
poll (some (w ∷ ws) ∷ ps) =
    ok (if all_success (w ∷ ws) then pos (length (w ∷ ws)) else minus_one, w ∷ ws, ps)

-- `use_event` is 0 in it: the queue is polled until something comes.
pub rdma_query_cq : Queues → ℕ → Outcome (ℤ × List Wc × Queues)
unfolding poll
rdma_query_cq q flag =
    if flag == 1
    then (do (r, ws, ps) ← poll q.send_cq; ok (r, ws, record q { send_cq = ps }))
    else if flag == 2
    then (do (r, ws, ps) ← poll q.recv_cq; ok (r, ws, record q { recv_cq = ps }))
    else ok (minus_one, [], q)
