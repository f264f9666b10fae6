-- ===== src/Memory/Manager.antt =====
-- class MemoryManager of rdma/Infiniband.h, and the functions of class Infiniband that reach
-- its pools: get_tx_buffers, post_chunk and post_channel_cluster (rdma/Infiniband.cc).
pub mod Laws
pub mod Drain
pub mod Posted
use workd.Prelude.{
  ℕ, Option, none, some, Bool, true, false, ◌&&◌, List, [], ◌∷◌, ◌++◌, if◌then◌else◌,
}
use workd.Prelude.Int.{ℤ, pos, minus_one, is_zero}
use workd.Prelude.Outcome.{Outcome, ok, fault, ◌>>=◌}
use workd.Memory.Chunk.{Chunk}
use workd.Memory.Cluster
use workd.Memory.Cluster.{Cluster}

-- `rdma` has no value until `register_rdma` runs.
pub record Manager : Type 0 where
  pub channel : Cluster
  pub rdma : Option Cluster
  pub send : Cluster

-- What `malloc` gave a cluster: the address, and what stood there.
pub record Block : Type 0 where
  pub base : ℕ
  pub bytes : List ℕ

module _ (reg : ℕ → ℕ → Option ℕ) (fuel : ℕ) where
  -- In what follows `device` and `pd` are whether these pointers are set, as the code asserts.
  filled : Block → ℕ → ℕ → Outcome Cluster
  filled block size num = Cluster.add reg block.base block.bytes fuel (Cluster.make size) num

  -- There is no return statement: the function is taken to return, and what it returns, which no
  -- caller reads, is left out.
  unfoldable pub register_rx_tx : Bool → Bool → Block → Block → ℕ → ℕ → ℕ → Outcome Manager
  unfolding filled
  register_rx_tx device pd rx_block tx_block size rx_num tx_num =
      if device && pd
      then (do
        channel ← filled rx_block size rx_num
        send ← filled tx_block size tx_num
        ok (record { channel = channel; rdma = none; send = send }))
      else fault

  unfoldable pub register_rdma : Bool → Bool → Block → Manager → ℕ → ℕ → Outcome (ℤ × Manager)
  unfolding filled
  register_rdma device pd block m size num =
      if device && pd
      then (do rdma ← filled block size num; ok (pos 0, record m { rdma = some rdma }))
      else fault

unfoldable pub return_channel : Manager → Chunk → Manager
return_channel m c = record m { send = Cluster.take_back m.send c }

unfoldable return_rx : Manager → Chunk → Manager
return_rx m c = record m { channel = Cluster.take_back m.channel c }

-- Through a pointer with no value the call is undefined.
unfoldable return_rdma : Manager → Chunk → Outcome Manager
return_rdma m c = elim m.rdma [
  | none ↦ fault
  | some cluster ↦ ok (record m { rdma = some (Cluster.take_back cluster c) })
]

unfoldable pub get_channel_buffers : Manager → ℕ → Outcome (List Chunk × Manager)
get_channel_buffers m bytes = do
  (ret, channel) ← Cluster.get_buffers m.channel bytes
  ok (ret, record m { channel = channel })

-- Infiniband::get_tx_buffers
unfoldable pub get_tx_buffers : Manager → ℕ → Outcome (List Chunk × Manager)
unfolding get_channel_buffers
get_tx_buffers m bytes = get_channel_buffers m bytes

-- A work request for the shared receive queue, with its one element written out. `wr_id` is the
-- chunk's pointer.
pub record RecvWr : Type 0 where
  pub wr_id : Chunk
  pub addr : ℕ
  pub length : ℕ
  pub lkey : ℕ

abbrev pub recv_wr : Chunk → RecvWr
recv_wr c = record { wr_id = c; addr = c.buffer; length = c.bytes; lkey = c.lkey }

-- `accepts` is `ibv_post_srq_recv`: whether the queue, of what stands in it, takes the request.
module _ (accepts : List RecvWr → RecvWr → Bool) where
  unfoldable pub post_chunk : List RecvWr → Chunk → ℤ × List RecvWr
  post_chunk srq c = elim (accepts srq (recv_wr c)) [
    | false ↦ (minus_one, srq)
    | true ↦ (pos 0, srq ++ recv_wr c ∷ [])
  ]

  -- The loop of `post_channel_cluster`, with its `if(r != 0) return r`.
  unfoldable pub post_all : List RecvWr → List Chunk → ℤ × List RecvWr
  post_all srq [] = (pos 0, srq)
  post_all srq (c ∷ cs) =
      let (r, srq') = post_chunk srq c in if is_zero r then post_all srq' cs else (r, srq')

  unfoldable pub post_channel_cluster : Manager → List RecvWr → Outcome (ℤ × List RecvWr)
  post_channel_cluster m srq = do
    (free_chunks, _) ← get_channel_buffers m 0
    ok (post_all srq free_chunks)
