-- ===== src/Socket/Send/Edges.antt =====
-- `send` outside the range that it is meant for: a message that the pool cannot hold, and one
-- with no bytes.
use workd.Prelude.{
  ℕ, zero, suc, ◌+◌, ◌*◌, ◌/◌, ◌^◌, ◌<◌, ◌≡◌, refl, ap, reverse, length-append, length-reverse,
  Bool, List, [], ◌∷◌, map, length, length-map, All, arith, inl, inr, if◌then◌else◌,
}
use workd.Prelude.Int.{pos, minus_one}
use workd.Prelude.Outcome.{ok, fault}
use workd.Memory.Chunk.{Chunk}
use workd.Memory.Chunk.Laws.{Ready}
use workd.Memory.Cluster.{get_buffers}
use workd.Memory.Cluster.Take.{Handed-cases, get_buffers-Handed, get_buffers-zero}
use workd.Memory.Manager.{Manager}
use workd.Memory.Manager.Laws.{get_tx_buffers_lem}
use workd.Socket.Send.{total, fill_buffer, fill, SendWr, send_wr, Sent, send}
use workd.Socket.Send.Deliver.{post_send_lem}

-- With no chunk the first buffer that is not empty faults.
fill-fault : (fuel : ℕ) (bl : List (List ℕ)) → 0 < fuel → 0 < total bl → fill fuel bl [] [] ≡ fault
unfolding fill fill_buffer total
fill-fault zero bl h k = absurd (omega arith)
fill-fault (suc fuel) [] h k = absurd (omega arith)
fill-fault (suc fuel) ([] ∷ bl) h k = fill-fault (suc fuel) bl h (omega (arith, k))
fill-fault (suc fuel) ((x ∷ b) ∷ bl) h k = ground arith

-- A message larger than all free chunks together, of a size that `uint32_t` can count in chunks
-- of at least one byte, makes `send` run through an iterator at the end of an empty vector: there
-- is no check that `get_tx_buffers` returned any.
pub send_short :
    (takes : List SendWr → Bool) (fuel : ℕ) (m : Manager) (bl : List (List ℕ))
    → 0 < fuel
    → 0 < m.channel.chunk_size
    → total bl / m.channel.chunk_size + 1 < 2 ^ 32
    → length m.channel.free_chunks * m.channel.chunk_size < total bl
    → send takes fuel m bl ≡ fault
unfolding send
send_short takes fuel m bl h sized small few =
    elim (Handed-cases m.channel (total bl) (get_buffers m.channel (total bl))
      (get_buffers-Handed m.channel (total bl) sized (omega arith) small)) [
        | inl (ret, rest, e, split, lo, hi) ↦ absurd (
            grind (
              arith,
              lo,
              few,
              ap length split,
              length-append rest (reverse ret),
              length-reverse ret,
            ))
        | inr (e, _) ↦
            rw (get_tx_buffers_lem m (total bl) [] m.channel e, fill-fault fuel bl h (omega arith))
      ]

length-zero :
    (size : ℕ) (cs : List Chunk) → All (Ready size) cs → All (λ w. w.length ≡ 0) (map send_wr cs)
unfolding send_wr
length-zero size [] h = tt
length-zero size (c ∷ cs) h = (omega (arith, h.0.2), length-zero size cs h.1)

-- An empty list, where there are free chunks and all are ready: `get_tx_buffers(0)` hands out
-- every free chunk without taking it off the pool, so a request of length 0 is posted for each,
-- and each is still free.
pub send_nothing :
    (takes : List SendWr → Bool) (fuel : ℕ) (m : Manager)
    → 0 < length m.channel.free_chunks
    → All (Ready m.channel.chunk_size) m.channel.free_chunks
    → (s : Sent) × (send takes fuel m [] ≡ ok s)
      × (s.manager ≡ m)
      × (length s.posted ≡ length m.channel.free_chunks)
      × All (λ w. w.length ≡ 0) s.posted
unfolding send total fill
send_nothing takes fuel m h ready = (
  record {
    result = if takes ws then pos 0 else minus_one;
    manager = m;
    bl = if takes ws then [] else [];
    posted = ws;
  },
  rw (get_tx_buffers_lem m 0 cs m.channel (get_buffers-zero m.channel), fill)
      (post_send_lem takes m [] ws (omega (arith, h, length-map cs send_wr))),
  refl,
  length-map cs send_wr,
  length-zero m.channel.chunk_size cs ready,
)
  where
    cs : List Chunk
    cs = m.channel.free_chunks

    ws : List SendWr
    ws = map send_wr cs
