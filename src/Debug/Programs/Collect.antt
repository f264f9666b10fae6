-- ===== src/Debug/Programs/Collect.antt =====
-- collect of debug/migration.cpp, which gathers the standard input in the memory for the peer.
pub mod Laws
use workd.Prelude.{
  ℕ, suc, ◌+◌, ◌-◌, min, Option, none, some, List, [], ◌∷◌, ltb, length, take, drop, copy_to,
  if◌then◌else◌,
}
use workd.Prelude.Int.{ℤ, pos, minus_one}
use workd.Prelude.Outcome.{Outcome, ok, spent}

-- RW_SIZE
abbrev pub rw_size : ℕ
rw_size = 1073741824

-- One call of read: it fails, or gives at least one byte, up to one more than this number, where
-- there is one and it is asked for one.
abbrev pub Reading : Type 0
Reading = Option ℕ

module _ (size : ℕ) where
  -- The loop: `input` is what is still to be read, `pool` the memory, of which `ret` bytes are
  -- filled.
  pub collect_from : List Reading → List ℕ → List ℕ → ℕ → Outcome (ℤ × List ℕ)
  collect_from [] input pool ret = spent
  collect_from (none ∷ rs) input pool ret = ok (minus_one, pool)
  collect_from (some most ∷ rs) input pool ret =
      let tmp = min (suc most) (min (size - ret) (length input)) in
      let rest = collect_from rs (drop tmp input) (copy_to pool ret (take tmp input)) (ret + tmp) in
      if ltb 0 tmp then rest else ok (pos ret, pool)

pub collect : List Reading → List ℕ → List ℕ → Outcome (ℤ × List ℕ)
unfolding collect_from
collect rs input pool = collect_from rw_size rs input pool 0
