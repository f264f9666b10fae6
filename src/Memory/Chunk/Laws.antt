-- ===== src/Memory/Chunk/Laws.antt =====
-- The cursor of a chunk stays inside its buffer, and what `write` puts in is what the sender posts.
use workd.Prelude.{
  ℕ, ◌+◌, ◌-◌, ◌≤◌, ◌<◌, ◌^◌, ◌≡◌, refl, ◌∙◌, List, ◌∷◌, copy_to, if◌then◌else◌, ◌++◌, arith, true,
  false, ◌≢◌, min, leb, length, take, drop, length-take, length-drop, length-copy_to, take-copy_to,
  Bool-cases, inl, inr, ◌↔◌,
}
use workd.Memory.Chunk.{Chunk, make, left, read, write, full}

-- What holds of a chunk between calls: the cursor lies in the buffer, whose size is a `uint32_t`.
pub record IsValid (c : Chunk) : Type 0 where
  pub cursor : c.offset ≤ c.bytes
  pub small : c.bytes < 2 ^ 32
  pub sized : length c.store ≡ c.bytes

-- The bytes in front of the cursor.
abbrev pub written : Chunk → List ℕ
written c = take c.offset c.store

left_lem : (c : Chunk) → IsValid c → left c ≡ c.bytes - c.offset
left_lem c v = omega arith

-- What a call of `write` has done: how many bytes it took, and where they stand.
pub record Wrote (c : Chunk) (buf : List ℕ) (len : ℕ) (r : ℕ × Chunk) : Type 0 where
  pub count : r.0 ≡ min len (c.bytes - c.offset)
  pub valid : IsValid r.1
  pub size : r.1.bytes ≡ c.bytes
  pub place : r.1.buffer ≡ c.buffer
  pub key : r.1.lkey ≡ c.lkey
  pub moved : r.1.offset ≡ c.offset + r.0
  pub content : written r.1 ≡ written c ++ take r.0 buf

-- Both branches copy `n` bytes to the cursor and move it behind them.
put :
    (c : Chunk) (buf : List ℕ) (len n o : ℕ)
    → IsValid c
    → n ≤ length buf
    → n ≡ min len (c.bytes - c.offset)
    → o ≡ c.offset + n
    → Wrote c buf len (n, record c { store = copy_to c.store c.offset (take n buf); offset = o })
put c buf len n o v h en eo = record {
  count = en;
  valid = record {
    cursor = omega arith;
    small = v.small;
    sized = length-copy_to c.store c.offset (take n buf) fits ∙ v.sized;
  };
  size = refl;
  place = refl;
  key = refl;
  moved = eo;
  content = take-copy_to c.store c.offset (take n buf) fits o (omega (arith, length-take n buf));
}
  where
    fits : c.offset + length (take n buf) ≤ length c.store
    fits = omega (arith, length-take n buf, v.sized)

-- `write` on a valid chunk, of no more bytes than the caller's buffer has, takes as many bytes as
-- fit, appends exactly these to what stands before the cursor, returns their number and keeps the
-- chunk valid, in both branches.
pub write_lem :
    (c : Chunk) (buf : List ℕ) (len : ℕ)
    → IsValid c
    → len ≤ length buf
    → Wrote c buf len (write c buf len)
unfolding write
write_lem c buf len v h = elim (Bool-cases (leb len (left c))) [
  | inl fits ↦
      rw fits
        (put c buf len len _ v h (ground (arith, left_lem c v)) (ground (arith, left_lem c v)))
  | inr short ↦ rw short (
      put c buf len (left c) _ v (ground (arith, left_lem c v)) (ground (arith, left_lem c v))
        (omega (arith, left_lem c v)))
]

-- A call of `read` on a valid chunk gives the bytes behind the cursor, up to the end of the
-- buffer. A request that the buffer meets moves the cursor behind them; one that it does not meet
-- moves it to the start.
pub read_lem :
    (c : Chunk) (len : ℕ)
    → IsValid c
    → let (got, n, c') = read c len in
      (n ≡ min len (c.bytes - c.offset))
      × (got ≡ take n (drop c.offset c.store))
      × (length got ≡ n)
      × (c' ≡ record c { offset = if leb len (c.bytes - c.offset) then c.offset + len else 0 })
      × IsValid c'
unfolding read
read_lem c len v = ground (
  arith,
  left_lem c v,
  length-take len (drop c.offset c.store),
  length-take (left c) (drop c.offset c.store),
  length-drop c.offset c.store,
)

-- `full` holds of a valid chunk exactly where the chunk takes no more bytes.
pub full-write :
    (c : Chunk) (x : ℕ) (buf : List ℕ) → IsValid c → (full c ≡ true) ↔ ((write c (x ∷ buf) 1).0 ≡ 0)
unfolding full write
full-write c x buf v = ground (arith, left_lem c v)

-- A chunk as a message finds it: valid, of the pool's size, and with the cursor at the start.
abbrev pub Ready : ℕ → Chunk → Type 0
Ready size c = IsValid c × (c.bytes ≡ size) × (c.offset ≡ 0)

pub make-Ready :
    (b len key : ℕ) (store : List ℕ)
    → length store ≡ len
    → len < 2 ^ 32
    → Ready len (make b len key store)
unfolding make
make-Ready b len key store e h = (record { cursor = omega arith; small = h; sized = e }, refl, refl)

pub full→eq : (c : Chunk) → full c ≡ true → c.offset ≡ c.bytes
unfolding full
full→eq c h = ground arith

pub full→ne : (c : Chunk) → full c ≡ false → c.offset ≢ c.bytes
unfolding full
full→ne c h = ground arith
