-- ===== src/Debug/Door.antt =====
-- The opening of a session in debug/rdma_session.cpp: the constructors, init, door, start_rw and
-- the send of a buffer, and rdma_portal::accept of debug/rdma_portal.cpp. Of qbuf, raddrs and
-- rkeys the contents are kept, not the addresses.
pub mod Announced
pub mod Heard
pub mod Paired
pub mod Linked
pub mod Met
pub mod Filled
use workd.Prelude.{
  ℕ, zero, suc, ◌+◌, ◌*◌, ◌/◌, Option, none, some, Bool, true, false, List, [], ◌∷◌, ◌++◌, ◌==◌,
  ltb, leb, map, length, drop, if◌then◌else◌,
}
use workd.Prelude.Int.{ℤ, pos}
use workd.Prelude.Outcome.{Outcome, ok, fault, spent, ◌>>=◌}
use workd.Debug.Verbs.{
  Registration, Mem, Task, op_send, RemoteInfo, Wr, rdma_post_send, Wc, Queues, rdma_query_cq,
  rdma_reg_mr, InitParams, socket_params,
}
use workd.Debug.HugePages.{Area, malloc_huge_pages}
use workd.Debug.Slices.{Region, slices_text, start_remote}
use workd.Debug.Buffers.{Buffers, Supply, reg_mem, post_recv}
use workd.Debug.Session.{Session}
use workd.Debug.Setup.{Machine, Connected, create_context}

-- The members; `sbuf_mem` is the memory of the send buffer, `remotes` has `raddrs` and `rkeys`
-- together.
pub record Door : Type 0 where
  pub buffers : Buffers
  pub sbuf_mem : List ℕ
  pub remotes : List Region
  pub rdma_index : ℕ
  pub rdma_gap : ℕ
  pub info : RemoteInfo
  pub queues : Queues
  pub sq : List Wr
  pub rq : List Wr

-- What the opening meets: memory and registration; which requests the two queues take; whether
-- malloc gives `rw_mem`; the bytes of the send buffer as allocated; the array `data`, and `tmp`,
-- each with the bytes behind it that may be written; the elements of `raddrs` and `rkeys` as
-- malloc gave them; `wc[0].byte_len` where no completion was stored; and the memory at `rbuf`
-- once a completion has come.
pub record World : Type 0 where
  pub supply : Supply
  pub takes : List Wr → Wr → Bool
  pub takes_recv : List Wr → Wr → Bool
  pub refused : ℕ
  pub has_rw : Bool
  pub fresh : List ℕ
  pub array : List ℕ
  pub tmp : List ℕ
  pub new_remotes : ℕ → List Region
  pub unset_len : ℕ
  pub arrived : List ℕ

-- 2*1024*1024 and 1024*1024*1024
abbrev pub slice : ℕ
slice = 2097152

abbrev pub rwbuf_size : ℕ
rwbuf_size = 1073741824

-- The loop that registers, from `cur` on; a region that does not register is a null pointer.
pub register_slices : (ℕ → ℕ → Registration) → ℕ → ℕ → ℕ → Outcome (List (Option Mem))
register_slices reg ptr zero cur = spent
register_slices reg ptr (suc fuel) cur =
    let rest = register_slices reg ptr fuel (cur + slice) in
    let all = rdma_reg_mr reg (ptr + cur) slice >>= λ m. rest >>= λ ms. ok (m ∷ ms) in
    if ltb cur rwbuf_size then all else ok []

-- `rw_mem[j]->mr`, of every element.
pub dereference : List (Option Mem) → Outcome (List Mem)
dereference [] = ok []
dereference (none ∷ ms) = fault
dereference (some m ∷ ms) = dereference ms >>= λ l. ok (m ∷ l)

abbrev pub region : Mem → Region
region m = (m.buf, m.rkey)

-- send(const char*, size_t), of all of `buf`, with `send_mem`: nothing but the memory bounds the
-- copy.
pub send_from : (List Wr → Wr → Bool) → Option Mem → Door → List ℕ → Outcome (ℤ × Door)
send_from takes none d buf = fault
send_from takes (some m) d buf =
    let task : Task = record {
      mem = m;
      opcode = op_send;
      size = length buf;
      rkey = 0;
      remote_addr = 0;
      id = 65;
    } in
    let (r, sq) = rdma_post_send takes d.info d.sq task in
    if leb (length buf) (length d.sbuf_mem)
    then ok (r, record d { sbuf_mem = buf ++ drop (length buf) d.sbuf_mem; sq = sq })
    else fault

pub send_buffer : (List Wr → Wr → Bool) → Door → List ℕ → Outcome (ℤ × Door)
unfolding send_from
send_buffer takes d buf = send_from takes d.buffers.send_mem d buf

-- The second half of `start_rw`, which waits for a completion whether or not the queue has taken
-- the request.
pub announce : World → Door → List Mem → Outcome Door
unfolding send_buffer
announce w d ms = do
  text ← slices_text w.array (map region ms)
  (r, d') ← send_buffer w.takes d text
  (r', ws, q) ← rdma_query_cq d'.queues 1
  ok (record d' { queues = q })

-- With the slices registered.
abbrev pub with_slices : Door → ℕ → List Area → List Mem → Door
with_slices d ptr areas ms = record d {
  buffers = record d.buffers {
    slices = rwbuf_size / slice;
    rw_mem = some ms;
    rwbuf = some ptr;
    areas = areas;
  };
}

-- `start_rw` behind its allocation. There are 512 slices; one round more ends the loop. Without
-- memory it goes through null pointers.
pub start_slices : World → Door → Option ℕ → List Area → Outcome Door
unfolding register_slices dereference announce
start_slices w d none areas = fault
start_slices w d (some ptr) areas =
    if w.has_rw
    then (do
      mems ← register_slices w.supply.reg ptr 513 0
      ms ← dereference mems
      announce w (with_slices d ptr areas ms) ms)
    else fault

pub start_rw : World → Door → Outcome Door
unfolding start_slices
start_rw w d =
    let (rwbuf, areas) =
      malloc_huge_pages w.supply.mmap w.supply.malloc rwbuf_size d.buffers.areas in
    start_slices w d rwbuf areas

-- wc[0].byte_len
pub first_len : ℕ → List Wc → ℕ
first_len unset [] = unset
first_len unset (c ∷ ws) = c.byte_len

-- `start_remote`, with `rbuf`, of the slices that have come.
pub store_remotes : World → Option ℕ → Door → List Wc → Outcome Door
unfolding first_len
store_remotes w none d ws = fault
store_remotes w (some p) d ws = do
  (i, rs) ←
      start_remote w.new_remotes w.tmp w.arrived d.buffers.recv_index (first_len w.unset_len ws)
  ok (record d { remotes = rs; buffers = record d.buffers { recv_index = i } })

-- The wait for the peer's slices, and `start_remote`.
pub hear : World → Door → Outcome Door
unfolding store_remotes
hear w d = do
  (r, ws, q) ← rdma_query_cq d.queues 2
  store_remotes w d.buffers.rbuf (record d { queues = q }) ws

pub door : World → ℕ → Door → Outcome Door
unfolding start_rw hear
door w flag d = if flag == 1 then start_rw w d >>= hear w else hear w d >>= start_rw w

-- `init` up to `door`. The result of `post_recv` is ignored.
pub set_up : World → Door → Outcome Door
set_up w d = do
  b ← reg_mem w.supply (record d.buffers { recv_nums = 1024; gap = 32768 }) 32768
  (r, b', rq) ← post_recv w.takes_recv w.refused b 16000 d.rq
  ok (record d { buffers = b'; rq = rq; rdma_index = 0; rdma_gap = 2097152; sbuf_mem = w.fresh })

pub init : World → ℕ → Door → Outcome Door
unfolding set_up door
init w flag d = set_up w d >>= door w flag

-- The members of the context that the session uses.
unfoldable pub with_context : Door → Connected → Door
with_context d c = record d {
  info = record { addr = c.remote_info.addr; rkey = c.remote_info.rkey };
  buffers = record d.buffers { ctx_rw = c.prepared.mem };
}

-- A context that was not created is a null pointer, which `reg_mem` goes through.
opened : World → ℕ → Door → Option Connected → Outcome Door
opened w flag d none = fault
opened w flag d (some c) = init w flag (with_context d c)

-- What `read`, `rdma` and `bulk` use of an open session; `rbuf` is the memory of the receive buffers, `m` the send
-- buffer.
abbrev pub session : Door → Mem → List ℕ → Session
session d m rbuf = record {
  recv_nums = d.buffers.recv_nums;
  gap = d.buffers.gap;
  recv_index = d.buffers.recv_index;
  posted_recv = pos d.buffers.posted_recv;
  rbuf = rbuf;
  send_mem = m;
  rdma_gap = d.rdma_gap;
  rdma_index = d.rdma_index;
  slices = d.buffers.slices;
  remotes = d.remotes;
  info = d.info;
  queues = d.queues;
  sq = d.sq;
}

-- rdma_portal::accept, for parameters that are given: `sockfd` is what open_server gave.
pub accept : World → Machine → ℤ → InitParams → Door → Outcome Door
unfolding opened
accept w m sockfd params d =
    create_context m true (socket_params (record params { sockfd = sockfd })) >>= opened w 1 d

-- The constructor for a client; `flag` is what stands in the member, which it does not set.
pub connect : World → Machine → ℕ → InitParams → Door → Outcome Door
unfolding opened
connect w m flag params d = create_context m false (socket_params params) >>= opened w flag d
