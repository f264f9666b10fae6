-- ===== src/Memory/Cluster.antt =====
-- class MemoryManager::Cluster of rdma/Infiniband.h: a pool of equal chunks. A vector is a list
-- whose end is the vector's back.
pub mod Add
pub mod Take
use workd.Prelude.{
  ℕ, zero, suc, ◌+◌, ◌-◌, ◌*◌, ◌/◌, ◌%◌, ◌^◌, Option, none, some, Bool, true, false, List, [], ◌∷◌,
  ◌++◌, ltb, ◌==◌, if◌then◌else◌, length, take, drop, u32,
}
use workd.Prelude.Outcome.{Outcome, ok, fault, spent, ◌>>=◌}
use workd.Memory.Chunk
use workd.Memory.Chunk.{Chunk}

pub record Cluster : Type 0 where
  pub chunk_size : ℕ
  pub free_chunks : List Chunk

-- The constructor without a number of chunks.
unfoldable pub make : ℕ → Cluster
make s = record { chunk_size = s; free_chunks = [] }

-- `ibv_reg_mr` is `reg`: from the address and the length to the key of the region, or a failure,
-- which fails the assertion behind it. `block` is what `malloc` found at `base`.
module _ (reg : ℕ → ℕ → Option ℕ) (base : ℕ) (block : List ℕ) (size : ℕ) where
  -- The loop of `add`, from `offset`; `uint32_t` arithmetic.
  pub add_from : ℕ → ℕ → ℕ → List Chunk → Outcome (List Chunk)
  add_from zero bytes offset free_chunks = spent
  add_from (suc fuel) bytes offset free_chunks = elim (ltb offset bytes) [
    | false ↦ ok free_chunks
    | true ↦ elim (reg (base + offset) size) [
      | none ↦ fault
      | some key ↦
          add_from fuel bytes (u32 (offset + size)) (
            free_chunks ++ Chunk.make (base + offset) size key (take size (drop offset block)) ∷ [])
    ]
  ]

-- `base` is what malloc gave; that it is not null is asserted. `fuel` rounds of the loop at most.
-- The result is 0 where it returns.
pub add : (ℕ → ℕ → Option ℕ) → ℕ → List ℕ → ℕ → Cluster → ℕ → Outcome Cluster
add reg base block fuel c num = if base == 0 then fault else (do
  free_chunks ← add_from reg base block c.chunk_size fuel (u32 (c.chunk_size * num)) 0 c.free_chunks
  ok (record c { free_chunks = free_chunks }))

unfoldable pub take_back : Cluster → Chunk → Cluster
take_back c ck = record c { free_chunks = c.free_chunks ++ ck ∷ [] }

-- `back` and `pop_back` of a vector; of an empty one the first is undefined.
unfoldable pub back : List Chunk → Option Chunk
back [] = none
back (c ∷ []) = some c
back (c ∷ d ∷ cs) = back (d ∷ cs)

unfoldable pub pop_back : List Chunk → List Chunk
pop_back [] = []
pop_back (c ∷ []) = []
pop_back (c ∷ d ∷ cs) = c ∷ pop_back (d ∷ cs)

-- `while(ret.size() != num)`, by the rounds left.
unfoldable pub take_loop : ℕ → List Chunk → List Chunk → Outcome (List Chunk × List Chunk)
take_loop zero ret free_chunks = ok (ret, free_chunks)
take_loop (suc n) ret free_chunks = elim (back free_chunks) [
  | none ↦ fault
  | some ck ↦ take_loop n (ret ++ ck ∷ []) (pop_back free_chunks)
]

-- The number of chunks for a request, in `uint32_t`.
unfoldable pub num_chunks : ℕ → ℕ → ℕ
num_chunks size bytes =
    let num = u32 (bytes / size + 1) in if bytes % size == 0 then u32 (num + 2 ^ 32 - 1) else num

-- A request for 0 bytes shows all the free chunks and takes none. A chunk size of 0 divides by 0.
unfoldable pub get_buffers : Cluster → ℕ → Outcome (List Chunk × Cluster)
get_buffers c bytes =
    if bytes == 0
    then ok (c.free_chunks, c)
    else if c.chunk_size == 0
    then fault
    else let num = num_chunks c.chunk_size bytes in
      if ltb (length c.free_chunks) num then ok ([], c) else (do
        (ret, rest) ← take_loop num [] c.free_chunks
        ok (ret, record c { free_chunks = rest }))
