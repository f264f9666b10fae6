-- ===== src/Socket/Send.antt =====
-- RDMAConnectedSocketImpl::send of rdma/RDMAConnectedSocketImpl.cc. A bufferlist is the list of its
-- buffers' bytes.
pub mod Fill
pub mod Deliver
pub mod Edges
use workd.Prelude.{
  ℕ, zero, suc, ◌+◌, ◌-◌, Bool, true, false, List, [], ◌∷◌, ◌++◌, map, ltb, length, drop, u32,
}
use workd.Prelude.Int.{ℤ, pos, minus_one}
use workd.Prelude.Outcome.{Outcome, ok, fault, spent, ◌>>=◌}
use workd.Memory.Chunk
use workd.Memory.Chunk.{Chunk}
use workd.Memory.Manager.{Manager, get_tx_buffers}

-- The bytes of a bufferlist.
unfoldable pub total : List (List ℕ) → ℕ
total [] = 0
total (b ∷ bl) = length b + total bl

-- The inner loop, which copies one buffer. `done` are the chunks in front of `current_buffer`, and
-- `rest` those from there on: at an empty `rest` the iterator is `end()`, and to go through it is
-- undefined. `copied` is a `uint32_t`.
unfoldable pub fill_buffer :
    ℕ → List ℕ → ℕ → List Chunk → List Chunk → Outcome (List Chunk × List Chunk)
fill_buffer zero buf copied done rest = spent
fill_buffer (suc fuel) buf copied done rest = elim (ltb copied (length buf)) [
  | false ↦ ok (done, rest)
  | true ↦ elim rest [
    | [] ↦ fault
    | c ∷ cs ↦
        let (ret, c') = Chunk.write c (drop copied buf) (length buf - copied) in
        elim (Chunk.full c') [
          | true ↦ fill_buffer fuel buf (u32 (copied + ret)) (done ++ c' ∷ []) cs
          | false ↦ fill_buffer fuel buf (u32 (copied + ret)) done (c' ∷ cs)
        ]
  ]
]

-- The outer loop, over the buffers.
unfoldable pub fill :
    ℕ → List (List ℕ) → List Chunk → List Chunk → Outcome (List Chunk × List Chunk)
fill fuel [] done rest = ok (done, rest)
fill fuel (b ∷ bl) done rest = fill_buffer fuel b 0 done rest >>= λ r. fill fuel bl r.0 r.1

-- A send request with its one element written out, IBV_WR_SEND and IBV_SEND_SIGNALED. `wr_id` is
-- the chunk's pointer, and the `next` fields chain the requests in the order of the list.
pub record SendWr : Type 0 where
  pub wr_id : Chunk
  pub addr : ℕ
  pub length : ℕ
  pub lkey : ℕ

unfoldable pub send_wr : Chunk → SendWr
send_wr c = record { wr_id = c; addr = c.buffer; length = u32 c.offset; lkey = c.lkey }

-- What a call leaves behind: its result, the manager, the caller's bufferlist, and what
-- `ibv_post_send` was given.
pub record Sent : Type 0 where
  pub result : ℤ
  pub manager : Manager
  pub bl : List (List ℕ)
  pub posted : List SendWr

-- `takes` is `ibv_post_send`, whether it takes the chain. With no chunk the arrays have no
-- element, and what it is given is undefined.
unfoldable pub post_send :
    (List SendWr → Bool) → Manager → List (List ℕ) → List SendWr → Outcome Sent
post_send takes m bl [] = fault
post_send takes m bl (w ∷ ws) = elim (takes (w ∷ ws)) [
  | false ↦ ok (record { result = minus_one; manager = m; bl = bl; posted = w ∷ ws })
  | true ↦ ok (record { result = pos (total bl); manager = m; bl = []; posted = w ∷ ws })
]

-- `fuel` rounds of the inner loop at most for a buffer.
unfoldable pub send : (List SendWr → Bool) → ℕ → Manager → List (List ℕ) → Outcome Sent
unfolding post_send
send takes fuel m bl = do
  (tx_buffers, m') ← get_tx_buffers m (total bl)
  (done, rest) ← fill fuel bl [] tx_buffers
  post_send takes m' bl (map send_wr (done ++ rest))
