-- ===== src/Debug/Bulk/Regions.antt =====
-- The regions of `bulk` tile its buffer, and there are as many as `bulk_mems` has room for.
use native.Mathlib.Nat.{div-add-mod', mod-lt, lt_of_mul-lt-mul_right}
use workd.Prelude.{
  ℕ, zero, suc, ◌+◌, ◌-◌, ◌*◌, ◌%◌, ◌≤◌, ◌<◌, ◌≡◌, refl, some, List, [], ◌∷◌, ◌==◌, leb, ltb,
  length, arith, if◌then◌else◌, Bool-cases, inl, inr, ◌⊎◌, ltb→lt, ==_iff, ==_ne, lt→ltb,
}
use workd.Prelude.Outcome.{ok}
use workd.Debug.Verbs.{Registration, mr_recorded, Mem, rdma_reg_mr}
use workd.Debug.Bulk.{num_regions, register_from}

-- Regions that cover the buffer from `cursor` to its end, one behind the other, with none empty or
-- longer than the gap.
abbrev pub Tile : ℕ → ℕ → ℕ → ℕ → List Mem → Type 0
Tile gap ptr size cursor [] = cursor ≡ size
Tile gap ptr size cursor (m ∷ ms) =
    (m.buf ≡ ptr + cursor) × (0 < m.size) × (m.size ≤ gap) × Tile gap ptr size (cursor + m.size) ms

num_regions_bounds :
    (gap size : ℕ)
    → 0 < gap
    → let n = num_regions gap size in (size ≤ n * gap) × (n * gap < size + gap)
unfolding num_regions
num_regions_bounds gap size h = elim (Bool-cases (size % gap == 0)) [
  | inl e ↦ rw e (grind (arith, div-add-mod' size gap, (==_iff (size % gap) 0).0 e))
  | inr e ↦ rw e (omega (arith, div-add-mod' size gap, mod-lt size h, ==_ne (size % gap) 0 e))
]

count-le : (n m gap size : ℕ) → n * gap < size + gap → size ≤ m * gap → n ≤ m
count-le n m gap size a b =
    omega (arith, lt_of_mul-lt-mul_right gap {m = n} {n = m + 1} (omega (arith, a, b)))

few : (n gap : ℕ) → n * gap < gap → n * gap ≡ 0
few zero gap h = omega arith
few (suc n) gap h = absurd (omega (arith, h))

module _ (key : ℕ → ℕ → ℕ × ℕ) (reg : ℕ → ℕ → Registration)
    (registers : (a l : ℕ) → reg a l ≡ mr_recorded (key a l)) (gap ptr size : ℕ)
    (big : 0 < gap) where
  registered :
      (a l : ℕ)
      → rdma_reg_mr reg a l
        ≡ ok (some (record { buf = a; size = l; lkey = (key a l).0; rkey = (key a l).1 }))
  unfolding rdma_reg_mr
  registered a l = rw (registers a l, rdma_reg_mr) refl

  -- `len` in the round at `cursor`.
  abbrev piece : ℕ → ℕ
  piece cursor = if leb gap (size - cursor) then gap else size - cursor

  -- One round that is not the last.
  register_step :
      (fuel cursor : ℕ) (ms : List Mem)
      → cursor < size
      → register_from reg gap ptr size fuel (cursor + piece cursor) ≡ ok (some ms)
      → register_from reg gap ptr size (suc fuel) cursor
        ≡ ok (
            some (
              record {
                buf = ptr + cursor;
                size = piece cursor;
                lkey = (key (ptr + cursor) (piece cursor)).0;
                rkey = (key (ptr + cursor) (piece cursor)).1;
              }
              ∷ ms))
  unfolding register_from
  register_step fuel cursor ms h k =
      rw (lt→ltb cursor size h, registered (ptr + cursor) (piece cursor), k, register_from) refl

  register_from_lem :
      (fuel cursor : ℕ)
      → cursor ≤ size
      → size - cursor < fuel
      → (ms : List Mem) × (register_from reg gap ptr size fuel cursor ≡ ok (some ms))
        × Tile gap ptr size cursor ms
        × (size ≤ cursor + length ms * gap)
        × (length ms * gap < size - cursor + gap)
  unfolding register_from
  register_from_lem zero cursor h k = absurd (omega arith)
  register_from_lem (suc fuel) cursor h k = elim (Bool-cases (ltb cursor size)) [
    | inr e ↦ ([], rw (e, register_from) refl, ground arith, ground arith, ground arith)
    | inl e ↦
        let len : ℕ = piece cursor in
        let small : (0 < len)
            × (len ≤ gap)
            × (cursor + len ≤ size)
            × ((len ≡ gap) ⊎ (cursor + len ≡ size)) =
          ground arith in
        let (ms, f, t, lo, hi) =
          register_from_lem fuel (cursor + len) small.2 (omega (arith, small)) in
        (
          record {
            buf = ptr + cursor;
            size = len;
            lkey = (key (ptr + cursor) len).0;
            rkey = (key (ptr + cursor) len).1;
          }
              ∷ ms,
          register_step fuel cursor ms (ltb→lt cursor size e) f,
          (refl, small.0, small.1, t),
          omega (arith, small, lo),
          grind (arith, small, hi, few (length ms) gap),
        )
  ]

  -- If every region registers, with memory for its record, and the gap is at least 1, the first loop of `bulk` returns once it
  -- has more rounds than the buffer has bytes: its regions tile the buffer from its start to its
  -- end, in order, each of at least one byte and at most the gap, and they are exactly as many as
  -- `bulk_mems` has room for.
  pub register_from-Tile :
      (fuel : ℕ)
      → size < fuel
      → (ms : List Mem) × (register_from reg gap ptr size fuel 0 ≡ ok (some ms))
        × Tile gap ptr size 0 ms
        × (length ms ≡ num_regions gap size)
  register_from-Tile fuel h =
      let (ms, e, t, lo, hi) = register_from_lem fuel 0 (omega arith) (omega arith) in
      let hi' : length ms * gap < size + gap = omega (arith, hi) in
      let b = num_regions_bounds gap size big in
      (
        ms,
        e,
        t,
        omega (
          arith,
          count-le (length ms) (num_regions gap size) gap size hi' b.0,
          count-le (num_regions gap size) (length ms) gap size b.1 (omega (arith, lo)),
        ),
      )
