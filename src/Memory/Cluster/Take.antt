-- ===== src/Memory/Cluster/Take.antt =====
-- `get_buffers` hands out as many chunks as the request needs, from the back of the pool.
use mathlib.Core.List.{reverse-cons, append_assoc, append-nil, reverse-reverse}
use native.Mathlib.Nat.{div-add-mod', mod-lt}
use workd.Prelude.{
  ℕ, suc, ◌+◌, ◌-◌, ◌*◌, ◌/◌, ◌%◌, ◌^◌, ◌≤◌, ◌<◌, ◌≡◌, refl, ap, ◌∙◌, some, List, [], ◌∷◌, ◌++◌,
  reverse, arith, ◌==◌, length, if◌then◌else◌, Bool-cases, inl, inr, ◌⊎◌, ==_iff, ==_ne, ne_==, ltb,
  ltb→lt, ltb→ge, take, drop, sym, length-drop, length-reverse, take-append-drop,
}
use workd.Prelude.Outcome.{Outcome, ok}
use workd.Memory.Chunk.{Chunk}
use workd.Memory.Cluster.{Cluster, back, pop_back, take_loop, num_chunks, get_buffers}

pub back-append : (xs : List Chunk) (x : Chunk) → back (xs ++ x ∷ []) ≡ some x
unfolding back
back-append [] x = refl
back-append (y ∷ []) x = refl
back-append (y ∷ z ∷ xs) x = back-append (z ∷ xs) x

pub pop_back-append : (xs : List Chunk) (x : Chunk) → pop_back (xs ++ x ∷ []) ≡ xs
unfolding pop_back
pop_back-append [] x = refl
pop_back-append (y ∷ []) x = refl
pop_back-append (y ∷ z ∷ xs) x = ap (◌∷◌ y) (pop_back-append (z ∷ xs) x)

take_loop-suc :
    (n : ℕ) (ret xs : List Chunk) (x : Chunk)
    → take_loop (suc n) ret (xs ++ x ∷ []) ≡ take_loop n (ret ++ x ∷ []) xs
unfolding take_loop
take_loop-suc n ret xs x = rw (back-append xs x, take_loop) (rw (pop_back-append xs x))

take_loop_lem :
    (ys ret xs : List Chunk) → take_loop (length ys) ret (xs ++ reverse ys) ≡ ok (ret ++ ys, xs)
unfolding take_loop
take_loop_lem [] ret xs = simp append-nil
take_loop_lem (y ∷ ys) ret xs =
    rw (reverse-cons y ys, ← append_assoc)
      (take_loop-suc (length ys) ret (xs ++ reverse ys) y
        ∙ take_loop_lem ys (ret ++ y ∷ []) xs
        ∙ rw append_assoc)

take_loop_split :
    (n : ℕ) (cs ys rest : List Chunk)
    → cs ≡ rest ++ reverse ys
    → length ys ≡ n
    → take_loop n [] cs ≡ ok (ys, rest)
take_loop_split n cs ys rest e k = rw (e, ← k) (take_loop_lem ys [] rest)

num_chunks-eq :
    (size bytes : ℕ)
    → 0 < size
    → 0 < bytes
    → bytes / size + 1 < 2 ^ 32
    → num_chunks size bytes ≡ (if bytes % size == 0 then bytes / size else bytes / size + 1)
unfolding num_chunks
num_chunks-eq size bytes h k small = ground arith

-- The number of chunks is the least that holds the bytes.
num_chunks_bounds :
    (size bytes : ℕ)
    → 0 < size
    → 0 < bytes
    → bytes / size + 1 < 2 ^ 32
    → let n = num_chunks size bytes in (bytes ≤ n * size) × (n * size < bytes + size) × (0 < n)
num_chunks_bounds size bytes h k small = elim (Bool-cases (bytes % size == 0)) [
  | inl e ↦
      rw (num_chunks-eq size bytes h k small, e)
        (grind (arith, div-add-mod' bytes size, (==_iff (bytes % size) 0).0 e))
  | inr e ↦
      rw (num_chunks-eq size bytes h k small, e)
        (omega (arith, div-add-mod' bytes size, mod-lt bytes h, ==_ne (bytes % size) 0 e))
]

-- Every list splits `n` from its end, if it is that long.
split_end :
    (n : ℕ) (xs : List Chunk)
    → n ≤ length xs
    → (ys : List Chunk) × (rest : List Chunk) × (xs ≡ rest ++ reverse ys) × (length ys ≡ n)
split_end n xs h = (reverse (drop k xs), take k xs, whole, count)
  where
    k : ℕ
    k = length xs - n

    whole : xs ≡ take k xs ++ reverse (reverse (drop k xs))
    whole = rw (reverse-reverse (drop k xs)) (sym (take-append-drop k xs))

    count : length (reverse (drop k xs)) ≡ n
    count = omega (arith, length-reverse (drop k xs), length-drop k xs)

-- What `get_buffers` has done with a request for `bytes > 0` bytes.
pub data Handed (c : Cluster) (bytes : ℕ) : Outcome (List Chunk × Cluster) → Type 0 where
  -- The chunks come off the back of the pool, as few as hold the bytes.
  enough :
      (ret rest : List Chunk)
      → c.free_chunks ≡ rest ++ reverse ret
      → bytes ≤ length ret * c.chunk_size
      → length ret * c.chunk_size < bytes + c.chunk_size
      → Handed c bytes (ok (ret, record c { free_chunks = rest }))
  -- The pool holds too little, and stays.
  short : length c.free_chunks * c.chunk_size < bytes → Handed c bytes (ok ([], c))

-- For chunks of at least one byte and a request for at least one byte that `uint32_t` can count
-- in chunks, `get_buffers` returns: either it takes off the back of the pool the least number of
-- chunks that hold the bytes, or all chunks of the pool together are too small for the bytes, and
-- it returns none and leaves the pool alone.
pub get_buffers-Handed :
    (c : Cluster) (bytes : ℕ)
    → 0 < c.chunk_size
    → 0 < bytes
    → bytes / c.chunk_size + 1 < 2 ^ 32
    → Handed c bytes (get_buffers c bytes)
unfolding get_buffers
get_buffers-Handed c bytes h k small = elim (Bool-cases (ltb (length c.free_chunks) num)) [
  | inl few ↦
      rw (ne_== bytes 0 (omega arith), ne_== c.chunk_size 0 (omega arith), few)
        (short (
          grind (
            arith,
            ltb→lt (length c.free_chunks) num few,
            num_chunks_bounds c.chunk_size bytes h k small,
          )))
  | inr many ↦
      let (ys, rest, e, n) = split_end num c.free_chunks (ltb→ge _ _ many) in
      rw
        (
          ne_== bytes 0 (omega arith),
          ne_== c.chunk_size 0 (omega arith),
          many,
          take_loop_split num c.free_chunks ys rest e n,
        )
        (enough ys rest e (rw n (num_chunks_bounds c.chunk_size bytes h k small).0)
          (rw n (num_chunks_bounds c.chunk_size bytes h k small).1))
]
  where
    num : ℕ
    num = num_chunks c.chunk_size bytes

-- A request for 0 bytes shows the whole pool.
pub get_buffers-zero : (c : Cluster) → get_buffers c 0 ≡ ok (c.free_chunks, c)
unfolding get_buffers
get_buffers-zero c = refl

-- The two cases with the equation for the call.
pub Handed-cases :
    (c : Cluster) (bytes : ℕ) (o : Outcome (List Chunk × Cluster))
    → Handed c bytes o
    → ((ret : List Chunk) × (rest : List Chunk) × (o ≡ ok (ret, record c { free_chunks = rest }))
        × (c.free_chunks ≡ rest ++ reverse ret)
        × (bytes ≤ length ret * c.chunk_size)
        × (length ret * c.chunk_size < bytes + c.chunk_size))
      ⊎ ((o ≡ ok ([], c)) × (length c.free_chunks * c.chunk_size < bytes))
Handed-cases c bytes _ (enough ret rest e lo hi) = inl (ret, rest, refl, e, lo, hi)
Handed-cases c bytes _ (short h) = inr (refl, h)
