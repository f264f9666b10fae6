-- ===== src/Memory/Cluster/Add.antt =====
-- `add` cuts its allocation into chunks that tile it.
use mathlib.Core.List.{append_assoc, append-nil}
use workd.Prelude.{
  ℕ, zero, suc, ◌+◌, ◌*◌, ◌^◌, ◌≤◌, ◌<◌, ◌≡◌, refl, ap, ◌∙◌, some, Option, List, [], ◌∷◌, ◌++◌,
  arith, length, take, drop, length-take, length-drop, All, u32, lt→ltb, ge→ltb, ne_==,
}
use workd.Prelude.Outcome.{ok}
use workd.Memory.Chunk
use workd.Memory.Chunk.{Chunk}
use workd.Memory.Chunk.Laws.{Ready, make-Ready}
use workd.Memory.Cluster.{add_from, add}

module _ (key : ℕ → ℕ) (base : ℕ) (block : List ℕ) (size : ℕ) where
  -- The `n` chunks that lie one behind the other from `base + offset` on.
  abbrev pub tiles : ℕ → ℕ → List Chunk
  tiles zero offset = []
  tiles (suc n) offset =
      Chunk.make (base + offset) size (key (base + offset)) (take size (drop offset block))
      ∷ tiles n (offset + size)

module _ (reg : ℕ → ℕ → Option ℕ) (key : ℕ → ℕ) (base : ℕ) (block : List ℕ) (size : ℕ)
    (pos : 0 < size) (registers : (a : ℕ) → reg a size ≡ some (key a)) where
  add_from_lem :
      (n fuel bytes offset : ℕ) (cs : List Chunk)
      → n < fuel
      → bytes ≡ offset + size * n
      → bytes + size ≤ 2 ^ 32
      → add_from reg base block size fuel bytes offset cs
        ≡ ok (cs ++ tiles key base block size n offset)
  unfolding add_from
  add_from_lem n zero bytes offset cs h e small = absurd (omega arith)
  add_from_lem zero (suc fuel) bytes offset cs h e small =
      rw (ge→ltb offset bytes (omega arith), add_from) (rw append-nil)
  add_from_lem (suc n) (suc fuel) bytes offset cs h e small =
      rw (lt→ltb offset bytes (omega arith), registers (base + offset), add_from)
        (add_from_lem n fuel bytes (u32 (offset + size)) _ (omega arith)
            (rw next (omega (arith, e))) small
          ∙ rw (next, append_assoc))
    where
      next : u32 (offset + size) ≡ offset + size
      next = omega arith

  -- `add` with `num` chunks returns once its loop has `num + 1` rounds of fuel, and puts `num`
  -- chunks at the back of the pool: they start one behind the other at the allocation, each
  -- `chunk_size` long, empty, and with the contents of its part of the block. The conditions are
  -- that malloc gives memory, that the chunk size is at least 1, that the size of the allocation and one chunk more fit
  -- `uint32_t`, and that every region registers.
  pub add_lem :
      (num fuel : ℕ) (cs : List Chunk)
      → 0 < base
      → num < fuel
      → size * num + size ≤ 2 ^ 32
      → add reg base block fuel (record { chunk_size = size; free_chunks = cs }) num
        ≡ ok (record { chunk_size = size; free_chunks = cs ++ tiles key base block size num 0 })
  unfolding add
  add_lem num fuel cs given h small =
      rw
        (
          ne_== base 0 (omega (arith, given)),
          add_from_lem num fuel (u32 (size * num)) 0 cs h (omega arith) (omega arith),
          add,
        )
        refl

module _ (key : ℕ → ℕ) (base : ℕ) (block : List ℕ) (size : ℕ) (small : size < 2 ^ 32) where
  -- What `send` needs of a chunk that it takes from the pool.
  pub tiles-Ready :
      (n offset : ℕ)
      → offset + n * size ≤ length block
      → All (Ready size) (tiles key base block size n offset)
  tiles-Ready zero offset h = tt
  tiles-Ready (suc n) offset h = (
    make-Ready (base + offset) size (key (base + offset)) _ sized small,
    tiles-Ready n (offset + size) (omega (arith, h)),
  )
    where
      sized : length (take size (drop offset block)) ≡ size
      sized = omega (arith, h, length-take size (drop offset block), length-drop offset block)

pub length-tiles :
    (key : ℕ → ℕ) (base : ℕ) (block : List ℕ) (size n offset : ℕ)
    → length (tiles key base block size n offset) ≡ n
length-tiles key base block size zero offset = refl
length-tiles key base block size (suc n) offset =
    ap suc (length-tiles key base block size n (offset + size))
