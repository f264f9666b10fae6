-- ===== src/Memory/Manager/Posted.antt =====
-- What stands in the shared receive queue while messages are sent from the pool that filled it.
use mathlib.Core.List.{append_assoc, append-nil, Mem, mem-append_right, mem-cons_self}
use workd.Prelude.{
  ℕ, ◌+◌, ◌/◌, ◌^◌, ◌<◌, ◌≡◌, sym, ◌∙◌, Bool, List, [], ◌∷◌, ◌++◌, map, arith, All,
  All-append_reverse,
}
use workd.Prelude.Int.{pos}
use workd.Prelude.Outcome.{Outcome, ok, fault, spent, ◌>>=◌}
use workd.Memory.Chunk.{Chunk}
use workd.Memory.Cluster.{Cluster, get_buffers}
use workd.Memory.Cluster.Take.{Handed, enough, short, get_buffers-Handed, get_buffers-zero}
use workd.Memory.Manager.{
  Manager, RecvWr, recv_wr, post_chunk, post_all, post_channel_cluster, get_channel_buffers,
  get_tx_buffers,
}

module _ (accepts : List RecvWr → RecvWr → Bool) where
  post_all-pos :
      (srq srq' : List RecvWr) (cs : List Chunk)
      → post_all accepts srq cs ≡ (pos 0, srq')
      → srq' ≡ srq ++ map recv_wr cs
  unfolding post_all post_chunk
  post_all-pos srq srq' [] e = ground (arith, append-nil srq)
  post_all-pos srq srq' (c ∷ cs) e = ground (
    arith,
    post_all-pos (srq ++ recv_wr c ∷ []) srq' cs,
    append_assoc srq (recv_wr c ∷ []) (map recv_wr cs),
  )

All-mem :
    (srq zs : List RecvWr) (cs : List Chunk)
    → zs ≡ srq ++ map recv_wr cs
    → All (λ c. Mem (recv_wr c) zs) cs
All-mem srq zs [] e = tt
All-mem srq zs (c ∷ cs) e = (
  rw e (mem-append_right srq mem-cons_self),
  All-mem (srq ++ recv_wr c ∷ []) zs cs
      (e ∙ sym (append_assoc srq (recv_wr c ∷ []) (map recv_wr cs))),
)

abbrev chunks_of : Outcome (List Chunk × Cluster) → List Chunk
chunks_of (ok (ret, c)) = ret
chunks_of _ = []

Handed-All {ℓ} :
    (P : Chunk → Type ℓ) (c : Cluster) (bytes : ℕ) (o : Outcome (List Chunk × Cluster))
    → All P c.free_chunks
    → Handed c bytes o
    → All P (chunks_of o)
Handed-All P c bytes _ h (enough ret rest e lo hi) = All-append_reverse P rest ret (rw e at h)
Handed-All P c bytes _ h (short k) = tt

chunks_of-get :
    (m m' : Manager) (o : Outcome (List Chunk × Cluster)) (ret : List Chunk)
    → ◌>>=◌ {B = List Chunk × Manager} o (λ r. ok (r.0, record m { channel = r.1 })) ≡ ok (ret, m')
    → chunks_of o ≡ ret
chunks_of-get m m' (ok (ret', c)) ret e = cc
chunks_of-get m m' fault ret e = cc
chunks_of-get m m' spent ret e = cc

-- The buffers that `send` fills stand in the shared receive queue: once `post_channel_cluster`
-- has succeeded, every chunk that `get_tx_buffers` then hands out for a message of at least one
-- byte, which `uint32_t` can count in chunks, has a receive request of its own posted.
pub tx_buffers_posted :
    (accepts : List RecvWr → RecvWr → Bool) (m m' : Manager) (srq srq' : List RecvWr) (bytes : ℕ)
    (ret : List Chunk)
    → 0 < m.channel.chunk_size
    → 0 < bytes
    → bytes / m.channel.chunk_size + 1 < 2 ^ 32
    → post_channel_cluster accepts m srq ≡ ok (pos 0, srq')
    → get_tx_buffers m bytes ≡ ok (ret, m')
    → All (λ c. Mem (recv_wr c) srq') ret
unfolding post_channel_cluster get_tx_buffers get_channel_buffers
tx_buffers_posted accepts m m' srq srq' bytes ret big some_bytes small posted taken =
    rw (← chunks_of-get m m' (get_buffers m.channel bytes) ret taken) (
      Handed-All (λ c. Mem (recv_wr c) srq') m.channel bytes (get_buffers m.channel bytes)
        (All-mem srq srq' m.channel.free_chunks
          (post_all-pos accepts srq srq' m.channel.free_chunks in_queue))
        (get_buffers-Handed m.channel bytes big some_bytes small))
  where
    in_queue : post_all accepts srq m.channel.free_chunks ≡ (pos 0, srq')
    in_queue = ground (arith, posted, get_buffers-zero m.channel)
