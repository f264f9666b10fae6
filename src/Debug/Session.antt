-- ===== src/Debug/Session.antt =====
-- class rdma_session of debug/rdma_session.cpp: the copying of what came in (query, read), and the
-- sending (send, latency, rdma, bulk).
pub mod Read
use workd.Prelude.{
  ℕ, zero, suc, ◌+◌, ◌-◌, ◌*◌, ◌/◌, ◌%◌, Option, none, some, Bool, true, false, List, [], ◌∷◌, ◌++◌,
  ◌==◌, ltb, leb, length, take, drop, get_elem?, if◌then◌else◌,
}
use workd.Prelude.Int.{ℤ, pos, negsuc, minus_one, is_zero}
use workd.Prelude.Outcome.{Outcome, ok, fault, spent, ◌>>=◌}
use workd.Debug.Verbs.{
  Mem, Task, op_send, op_rdma_write, RemoteInfo, Wr, rdma_post_send, Wc, Queues, rdma_query_cq,
  rdma_reg_mr, rdma_dereg_mr,
}

-- The members; `rbuf` is the memory of the receive buffers, which lie one behind the other, and
-- `remotes` has `raddrs` and `rkeys` together.
pub record Session : Type 0 where
  pub recv_nums : ℕ
  pub gap : ℕ
  pub recv_index : ℕ
  pub posted_recv : ℤ
  pub rbuf : List ℕ
  pub send_mem : Mem
  pub rdma_gap : ℕ
  pub rdma_index : ℕ
  pub slices : ℕ
  pub remotes : List (ℕ × ℕ)
  pub info : RemoteInfo
  pub queues : Queues
  pub sq : List Wr

-- --posted_recv
decrement : ℤ → ℤ
decrement (pos zero) = minus_one
decrement (pos (suc n)) = pos n
decrement (negsuc n) = negsuc (suc n)

-- The loop of `query`, for the receives of `post_recv` that have come in.
count_down : ℤ → List Wc → ℤ
unfolding decrement
count_down posted [] = posted
count_down posted (w ∷ ws) = count_down (if w.wr_id == 666 then decrement posted else posted) ws

-- `query`: the result, the array and the session. The flag is 3.
pub query : Session → Outcome (ℤ × List Wc × Session)
unfolding count_down
query s = do
  (r, ws, q) ← rdma_query_cq s.queues 3
  ok (
    r,
    ws,
    elim r [
      | pos n ↦ record s { queues = q; posted_recv = count_down s.posted_recv (take n ws) }
      | negsuc n ↦ record s { queues = q }
    ],
  )

-- The variables of `read`; `start` is an offset in `rbuf`, `dest` what has been copied, so that its
-- length is `size`.
record Copy : Type 0 where
  recv_index : ℕ
  full : ℕ
  start : ℕ
  dest : List ℕ

-- memcpy(dest+size,start,len)
copied : Session → ℕ → ℕ → List ℕ
copied s start len = take len (drop start s.rbuf)

-- One completion; a buffer that is full is only counted.
unfoldable read_wc : Session → Copy → Wc → Copy
unfolding copied
read_wc s c w =
    if ltb w.byte_len s.gap
    then (let len = c.full * s.gap + w.byte_len in
        let tlen = (s.recv_nums - c.recv_index) * s.gap in
        let next = (c.recv_index + c.full + 1) % s.recv_nums in
        record {
          recv_index = next;
          full = 0;
          start = next * s.gap;
          dest =
              if ltb (c.recv_index + c.full) s.recv_nums
              then c.dest ++ copied s c.start len
              else c.dest ++ (copied s c.start tlen ++ copied s 0 (len - tlen));
        })
    else record c { full = c.full + 1 }

read_wcs : Session → Copy → List Wc → Copy
read_wcs s c [] = c
read_wcs s c (w ∷ ws) = read_wcs s (read_wc s c w) ws

-- What is left over: full buffers with no end yet.
read_rest : Session → Copy → List ℕ
unfolding copied
read_rest s c =
    if c.full == 0
    then c.dest
    else if ltb (c.recv_index + c.full) s.recv_nums
    then c.dest ++ copied s c.start (c.full * s.gap)
    else (let front = (c.full + c.recv_index) % s.recv_nums in
        let wrapped = c.dest ++ copied s c.start ((s.recv_nums - c.recv_index) * s.gap) in
        if front == 0 then wrapped else wrapped ++ copied s 0 (front * s.gap))

-- `for(int i=0;i<done;++i)`: with a negative `done` there is no round.
done_wcs : ℤ → List Wc → List Wc
done_wcs (pos n) ws = take n ws
done_wcs (negsuc n) ws = []

-- The bytes at `dest`; their number is the result. With no receive buffers it divides by 0.
pub read : Session → Outcome (List ℕ × Session)
unfolding read_wcs read_rest done_wcs
read s = if s.recv_nums == 0 then fault else (do
  (done, ws, s') ← query s
  (let c =
        read_wcs s'
          (record {
            recv_index = s'.recv_index;
            full = 0;
            start = s'.recv_index * s'.gap;
            dest = [];
          })
          (done_wcs done ws) in
      ok (read_rest s' c, record s' { recv_index = (c.recv_index + c.full) % s'.recv_nums })))

module _ (takes : List Wr → Wr → Bool) where
  -- send(struct rdma_task*)
  pub post : Session → Task → ℤ × Session
  post s t = let (r, sq) = rdma_post_send takes s.info s.sq t in (r, record s { sq = sq })

  -- send(size_t)
  pub send_size : Session → ℕ → ℤ × Session
  unfolding post
  send_size s size =
      if size == 0
      then (pos 0, s)
      else post s (record {
        mem = s.send_mem;
        opcode = op_send;
        size = size;
        rkey = 0;
        remote_addr = 0;
        id = 222;
      })

  unfoldable pub latency : Session → ℕ → Outcome (ℤ × Session)
  unfolding send_size
  latency s size =
      if ltb s.gap size
      then ok (minus_one, s)
      else (let (ret, s') = send_size s size in
          if is_zero ret
          then (do
            (ack, ws, q) ← rdma_query_cq s'.queues 1
            ok (elim ack [ pos n ↦ pos 0 | negsuc n ↦ minus_one ], record s' { queues = q }))
          else ok (ret, s'))

  -- Past the end of `raddrs` and `rkeys` it is undefined, and with no slices it divides by 0.
  unfoldable pub rdma : Session → Mem → Outcome (ℤ × Session)
  unfolding post
  rdma s m = elim (get_elem? s.remotes s.rdma_index) [
    | none ↦ fault
    | some (raddr, rkey) ↦
        if s.slices == 0
        then fault
        else ok (
            post (record s { rdma_index = (s.rdma_index + 1) % s.slices })
              (record {
                mem = m;
                opcode = op_rdma_write;
                size = m.size;
                rkey = rkey;
                remote_addr = raddr;
                id = 233;
              }))
  ]
