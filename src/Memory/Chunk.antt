-- ===== src/Memory/Chunk.antt =====
-- class MemoryManager::Chunk of rdma/Infiniband.h: a registered buffer with a cursor.
pub mod Laws
use workd.Prelude.{
  ℕ, ◌+◌, ◌≤◌, ◌<◌, ◌^◌, ◌≡◌, Bool, List, leb, if◌then◌else◌, ◌==◌, length, take, drop, add_size,
  sub_size, copy_to,
}

-- `buffer` is the address of the memory, `store` what stands there, `lkey` the field of `*mr`.
pub record Chunk : Type 0 where
  pub buffer : ℕ
  pub bytes : ℕ
  pub offset : ℕ
  pub lkey : ℕ
  pub store : List ℕ

-- The constructor, over memory that holds `store`.
pub make : ℕ → ℕ → ℕ → List ℕ → Chunk
make b len key store = record { buffer = b; bytes = len; offset = 0; lkey = key; store = store }

unfoldable pub set_offset : Chunk → ℕ → Chunk
set_offset c o = record c { offset = o }

-- `size_t left = bytes - offset`
abbrev pub left : Chunk → ℕ
left c = sub_size c.bytes c.offset

-- The list is what `memcpy` brings to `buf`, the number the result.
pub read : Chunk → ℕ → List ℕ × ℕ × Chunk
read c len =
    if leb len (left c)
    then (take len (drop offset store), len, record c { offset = add_size offset len })
    else (take (left c) (drop offset store), left c, record c { offset = 0 })
  where
    open c use {offset, store}

-- `len` bytes from `buf`, which is the memory that the pointer shows.
unfoldable pub write : Chunk → List ℕ → ℕ → ℕ × Chunk
write c buf len =
    if leb len (left c)
    then (
      len,
      record c { store = copy_to store offset (take len buf); offset = add_size offset len },
    )
    else (left c, record c { store = copy_to store offset (take (left c) buf); offset = c.bytes })
  where
    open c use {offset, store}

unfoldable pub full : Chunk → Bool
full c = c.offset == c.bytes
