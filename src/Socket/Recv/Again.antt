-- ===== src/Socket/Recv/Again.antt =====
-- `read_buffers` keeps the chunks that it has read to their ends.
use workd.Prelude.{ℕ, ◌+◌, ◌-◌, ◌<◌, ◌≡◌, refl, List, [], ◌∷◌, ◌++◌, arith, take_all, All}
use workd.Memory.Chunk
use workd.Memory.Chunk.{Chunk}
use workd.Memory.Chunk.Laws.{IsValid, read_lem}
use workd.Socket.Recv.{read_from, read_buffers}

-- A chunk that is as it came.
abbrev IsWhole : Chunk → Type 0
IsWhole c = IsValid c × (c.offset ≡ 0)

abbrev pub stores : List Chunk → List ℕ
stores [] = []
stores (c ∷ cs) = c.store ++ stores cs

abbrev pub sizes : List Chunk → ℕ
sizes [] = 0
sizes (c ∷ cs) = c.bytes + sizes cs

-- A read beyond the end of a whole chunk gives all of it and leaves it whole.
read_whole :
    (c : Chunk) (want : ℕ) → IsWhole c → c.bytes < want → Chunk.read c want ≡ (c.store, c.bytes, c)
read_whole c want v h =
    ground (arith, read_lem c want v.0, take_all c.bytes c.store (omega (arith, v.0.sized)))

read_from_whole :
    (len n : ℕ) (cs : List Chunk)
    → All IsWhole cs
    → n + sizes cs < len
    → read_from len n cs ≡ (stores cs, n + sizes cs, cs)
unfolding read_from
read_from_whole len n [] v h = ground arith
read_from_whole len n (c ∷ cs) v h =
    ground (arith, read_whole c (len - n) v.0, read_from_whole len (n + c.bytes) cs v.1)

-- For valid chunks that wait untouched and a request for more than they hold, `read_buffers`
-- gives all their bytes and leaves the list as it was, so that the same call gives the same bytes
-- again.
pub read_buffers_again :
    (cs : List Chunk) (len : ℕ)
    → All IsWhole cs
    → sizes cs < len
    → let (bytes, n, cs') = read_buffers cs len in
      (bytes ≡ stores cs) × (n ≡ sizes cs) × (read_buffers cs' len ≡ (stores cs, sizes cs, cs))
unfolding read_buffers
read_buffers_again cs len v h = rw (first, first) (refl, refl, refl)
  where
    first : read_from len 0 cs ≡ (stores cs, sizes cs, cs)
    first = ground (arith, read_from_whole len 0 cs v)
