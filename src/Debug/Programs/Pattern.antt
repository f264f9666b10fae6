-- ===== src/Debug/Programs/Pattern.antt =====
-- The test data: the loops of client (debug/xx.cpp) and init_mem (debug/cpyread.cpp and
-- debug/regread.cpp) that fill memory with letters, and the loop of server (debug/xx.cpp) that
-- checks what came.
pub mod Laws
use workd.Prelude.{
  ℕ, zero, suc, ◌+◌, Option, none, some, Bool, true, false, List, [], ◌∷◌, ◌==◌, ltb, leb, length,
  drop, replicate, copy_to, if◌then◌else◌,
}
use workd.Prelude.Outcome.{Outcome, ok, fault, spent}

-- The letter after `ch`, from `first` to `last` and again.
pub next : ℕ → ℕ → ℕ → ℕ
next first last ch = if ch == last then first else ch + 1

module _ (unit first last bytes : ℕ) where
  -- The loop of memset from `index` on, over memory at `mem`: `unit` bytes of each letter.
  pub fill_from : ℕ → List ℕ → ℕ → ℕ → Outcome (List ℕ)
  unfolding next
  fill_from zero mem index ch = spent
  fill_from (suc fuel) mem index ch =
      let rest =
        fill_from fuel (copy_to mem index (replicate unit ch)) (index + unit)
          (next first last ch) in
      if ltb index bytes then (if leb (index + unit) (length mem) then rest else fault) else ok mem

-- client: four bytes of each of b'A' to b'Z'; one round more ends the loop.
pub fill : ℕ → List ℕ → Outcome (List ℕ)
unfolding fill_from
fill bytes mem = fill_from 4 65 90 bytes (suc bytes) mem 0 65

-- init_mem: 128 bytes of each of b'a' to b'z'; `mem` is what the allocation gave.
pub init_mem : ℕ → List ℕ → Outcome (List ℕ)
unfolding fill_from
init_mem tg mem = fill_from 128 97 122 tg (suc tg) mem 0 97

-- Whether the next bytes are the letter; none are read behind one that is not.
pub same : ℕ → ℕ → List ℕ → Option Bool
same ch zero s = some true
same ch (suc n) [] = none
same ch (suc n) (c ∷ s) = if c == ch then same ch n s else some false

-- The loop of the check, `s` being the memory from there on. For the message about a wrong letter
-- it copies 15 bytes.
pub check_from : ℕ → ℕ → List ℕ → ℕ → ℕ → Outcome Bool
unfolding same next
check_from bytes zero s cur ch = spent
check_from bytes (suc fuel) s cur ch =
    let rest = check_from bytes fuel (drop 4 s) (cur + 4) (next 65 90 ch) in
    let wrong : Outcome Bool = if leb 15 (length s) then ok false else fault in
    if ltb cur bytes
    then (elim (same ch 4 s) [ none ↦ fault | some right ↦ if right then rest else wrong ])
    else ok true

pub check : ℕ → List ℕ → Outcome Bool
unfolding check_from
check bytes ts = check_from bytes (suc bytes) ts 0 65
