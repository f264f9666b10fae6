-- ===== src/Memory/Manager/Drain.antt =====
-- Where the chunks of finished messages go: `get_tx_buffers` draws on one pool and
-- `return_channel` fills another.
use mathlib.Core.List.{append_assoc, append-nil, reverse-cons, reverse-reverse}
use native.Mathlib.Nat.{div-add-mod'}
use workd.Prelude.{
  ℕ, ◌+◌, ◌/◌, ◌^◌, ◌≤◌, ◌<◌, ◌≡◌, refl, ap, sym, ◌∙◌, List, [], ◌∷◌, ◌++◌, reverse, arith, length,
  length-append, length-reverse, All,
}
use workd.Prelude.Outcome.{Outcome, ok, ◌>>=◌}
use workd.Memory.Chunk.{Chunk}
use workd.Memory.Cluster.{Cluster, take_back, get_buffers}
use workd.Memory.Cluster.Take.{
  Handed, enough, short, get_buffers-Handed, back-append, pop_back-append,
}
use workd.Memory.Manager.{Manager, return_channel, get_channel_buffers, get_tx_buffers}

-- The completions of a message's requests, in order: `handle_tx_event` returns each chunk.
abbrev return_all : Manager → List Chunk → Manager
return_all m [] = m
return_all m (c ∷ cs) = return_all (return_channel m c) cs

-- The life of a message's chunks: taken by `send`, returned as their requests complete.
cycle : Manager → ℕ → Outcome Manager
cycle m bytes = do (ret, m') ← get_tx_buffers m bytes; ok (return_all m' ret)

pub cycles : Manager → List ℕ → Outcome Manager
cycles m [] = ok m
cycles m (b ∷ bs) = cycle m b >>= λ m'. cycles m' bs

module _ (c : Cluster) (bytes : ℕ) (pos : 0 < bytes) (small : bytes ≤ c.chunk_size) where
  Handed-one :
      (o : Outcome (List Chunk × Cluster)) (xs : List Chunk) (x : Chunk)
      → c.free_chunks ≡ xs ++ x ∷ []
      → Handed c bytes o
      → o ≡ ok (x ∷ [], record c { free_chunks = xs })
  Handed-one _ xs x e (enough [] rest f lo hi) = absurd (omega (arith, lo))
  Handed-one _ xs x e (enough (y ∷ []) rest f lo hi) =
      cc (back-append xs x, pop_back-append xs x, back-append rest y, pop_back-append rest y)
  Handed-one _ xs x e (enough (y ∷ z ∷ ret) rest f lo hi) = absurd (grind (arith, hi))
  Handed-one _ xs x e (short h) = absurd (grind (arith, h, ap length e, length-append xs (x ∷ [])))

  Handed-none :
      (o : Outcome (List Chunk × Cluster)) → c.free_chunks ≡ [] → Handed c bytes o → o ≡ ok ([], c)
  Handed-none _ e (enough [] rest f lo hi) = absurd (omega (arith, lo))
  Handed-none _ e (enough (y ∷ ret) rest f lo hi) = absurd (
      omega (
        arith,
        ap length f,
        ap length e,
        length-append rest (reverse (y ∷ ret)),
        length-reverse (y ∷ ret),
      ))
  Handed-none _ e (short h) = refl

div_small : (b s : ℕ) → 0 < s → b ≤ s → b / s + 1 < 2 ^ 32
div_small b s h k = grind (arith, div-add-mod' b s)

-- The manager after `cs`, in this order, has gone through a message each.
abbrev moved : Manager → List Chunk → List Chunk → Manager
moved m xs cs = record m {
  channel = record { chunk_size = m.channel.chunk_size; free_chunks = xs };
  send = record { chunk_size = m.send.chunk_size; free_chunks = m.send.free_chunks ++ cs };
}

module _ (size : ℕ) (big : 0 < size) where
  cycle-one :
      (m : Manager) (b : ℕ) (xs : List Chunk) (x : Chunk)
      → m.channel.chunk_size ≡ size
      → 0 < b
      → b ≤ size
      → m.channel.free_chunks ≡ xs ++ x ∷ []
      → cycle m b ≡ ok (moved m xs (x ∷ []))
  unfolding cycle get_tx_buffers get_channel_buffers return_channel take_back
  cycle-one m b xs x s pos small e = rw (taken, cycle)
    where
      taken :
          get_buffers m.channel b
          ≡ ok (x ∷ [], record { chunk_size = m.channel.chunk_size; free_chunks = xs })
      taken = Handed-one m.channel b pos (omega arith) (get_buffers m.channel b) xs x e (
          get_buffers-Handed m.channel b (omega arith) pos
            (div_small b m.channel.chunk_size (omega arith) (omega arith)))

  cycles_lem :
      (cs : List Chunk) (m : Manager) (bs : List ℕ)
      → m.channel.chunk_size ≡ size
      → All (λ b. (0 < b) × (b ≤ size)) bs
      → length bs ≡ length cs
      → m.channel.free_chunks ≡ reverse cs
      → cycles m bs ≡ ok (moved m [] cs)
  unfolding cycles
  cycles_lem [] m [] s h k e = ground (arith, append-nil m.send.free_chunks)
  cycles_lem [] m (b ∷ bs) s h k e = absurd (omega arith)
  cycles_lem (c ∷ cs) m [] s h k e = absurd (omega arith)
  cycles_lem (c ∷ cs) m (b ∷ bs) s h k e =
      rw (cycle-one m b (reverse cs) c s h.0.0 h.0.1 (e ∙ reverse-cons c cs), cycles)
        (cycles_lem cs (moved m (reverse cs) (c ∷ [])) bs s h.1 (omega arith) refl
          ∙ rw append_assoc)

-- As many messages of one chunk each as the receive pool has chunks use it up for ever: although
-- every chunk has been returned, the receive pool is then empty, all its chunks stand at the end
-- of the send pool, and the next message of one chunk gets no buffer.
pub cycles-drain :
    (m : Manager) (bs : List ℕ) (b : ℕ)
    → 0 < m.channel.chunk_size
    → All (λ b. (0 < b) × (b ≤ m.channel.chunk_size)) bs
    → length bs ≡ length m.channel.free_chunks
    → 0 < b
    → b ≤ m.channel.chunk_size
    → (m' : Manager) × (cycles m bs ≡ ok m')
      × (m'.channel.free_chunks ≡ [])
      × (m'.send.free_chunks ≡ m.send.free_chunks ++ reverse m.channel.free_chunks)
      × (get_tx_buffers m' b ≡ ok ([], m'))
unfolding get_tx_buffers get_channel_buffers
cycles-drain m bs b big h k pos small = (
  m',
  cycles_lem m.channel.chunk_size big (reverse cs) m bs refl h (omega (arith, k, length-reverse cs))
      (sym (reverse-reverse cs)),
  refl,
  refl,
  rw (none_left, get_tx_buffers),
)
  where
    cs : List Chunk
    cs = m.channel.free_chunks

    m' : Manager
    m' = moved m [] (reverse cs)

    none_left : get_buffers m'.channel b ≡ ok ([], m'.channel)
    none_left =
        Handed-none m'.channel b pos small (get_buffers m'.channel b) refl
          (get_buffers-Handed m'.channel b big pos (div_small b m.channel.chunk_size big small))
