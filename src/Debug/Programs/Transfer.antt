-- ===== src/Debug/Programs/Transfer.antt =====
-- The transfer of debug/xx.cpp: the loop of client that sends, and the loop of server that reads.
-- The clock, which only measures, is left out.
pub mod Sent
pub mod Stuck
use workd.Prelude.{
  ℕ, zero, suc, ◌+◌, Option, none, some, Bool, true, false, ◌&&◌, List, [], ◌∷◌, ◌++◌, ltb, leb,
  length, take, drop, if◌then◌else◌,
}
use workd.Prelude.Int.{ℤ, pos, is_neg, is_zero}
use workd.Prelude.Outcome.{Outcome, ok, fault, spent, ◌>>=◌}
use workd.Debug.Verbs.{Mem, Task, op_send, Wr, rdma_post_send, rdma_query_cq}
use workd.Debug.Session.{Session, read}
use workd.Debug.Door.{Door}

-- The session, and what the requests that the queue has taken carry, each as its buffer stood.
pub record Sending : Type 0 where
  pub door : Door
  pub wire : List (List ℕ)

abbrev pub task : Mem → ℕ → Task
task m size = record { mem = m; opcode = op_send; size = size; rkey = 0; remote_addr = 0; id = 0 }

module _ (takes : List Wr → Wr → Bool) (m : Mem) (ts : List ℕ) (size : ℕ) where
  -- memcpy(dest,ts+cur,size) and the send of it.
  pub put : ℕ → Sending → Outcome (ℤ × Sending)
  put cur s =
      let buffer = take size (drop cur ts) ++ drop size s.door.sbuf_mem in
      let (r, sq) = rdma_post_send takes s.door.info s.door.sq (task m size) in
      if leb (cur + size) (length ts) && leb size (length s.door.sbuf_mem)
      then ok (
        r,
        record {
          door = record s.door { sbuf_mem = buffer; sq = sq };
          wire = if is_zero r then s.wire ++ take size buffer ∷ [] else s.wire;
        },
      )
      else fault

  -- while(cur<bytes), with `bytes` that of `ts`. What the later sends return is ignored; behind the
  -- loop there is no return, for which the result is 0.
  pub send_rest : ℕ → ℕ → Sending → Outcome (ℤ × Sending)
  unfolding put
  send_rest zero cur s = spent
  send_rest (suc fuel) cur s =
      let round = rdma_query_cq s.door.queues 1 >>= λ q.
      let s' : Sending = record s { door = record s.door { queues = q.2 } } in
      elim (is_neg q.0) [
        | true ↦ ok (pos 1, s')
        | false ↦ put cur s' >>= λ x. send_rest fuel (cur + size) x.1
      ] in
      if ltb cur (length ts) then round else ok (pos 0, s)

  -- The loop behind the first message.
  pub send_all : ℕ → Sending → Outcome (ℤ × Sending)
  unfolding send_rest
  send_all fuel s =
      put 0 s >>= λ x. if is_zero x.0 then send_rest fuel size x.1 else ok (pos 1, x.1)

-- while(cur<bytes) of server, over memory of `bytes` bytes.
pub receive : ℕ → ℕ → Session → List ℕ → Outcome (List ℕ × Session)
receive bytes zero s got = spent
receive bytes (suc fuel) s got =
    let round = read s >>= λ x.
    let more = receive bytes fuel x.1 (got ++ x.0) in
    if leb (length got + length x.0) bytes then more else fault in
    if ltb (length got) bytes then round else ok (got, s)
