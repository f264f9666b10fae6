-- ===== src/Debug/Programs/Announce.antt =====
-- The exchange of memory in debug/regread.cpp (reg_memory, dereg_memory), and move of
-- debug/cpyread.cpp and debug/regread.cpp.
pub mod Laws
use workd.Prelude.{
  ℕ, zero, suc, ◌+◌, ◌%◌, Option, none, some, Bool, ◌&&◌, List, [], ◌∷◌, ◌++◌, ltb, leb, length,
  take, drop, copy_to, if◌then◌else◌,
}
use workd.Prelude.Outcome.{Outcome, ok, fault, spent, ◌>>=◌}
use workd.Debug.Verbs.{Registration, Mem, rdma_reg_mr}
use workd.Debug.Slices.{entry}

-- The array of regions, and the text.
pub record Announcing : Type 0 where
  pub mems : List Mem
  pub text : List ℕ

module _ (reg : ℕ → ℕ → Registration) (tg ptr bs num : ℕ) where
  -- The loop from `cur` on, with `i` the place in the text, an `int` that may not overflow; the array
  -- has room for `num` regions, and `j`, which is less, cannot overflow first.
  -- `none` is exit(1), where a region does not register.
  pub reg_from : ℕ → ℕ → ℕ → Announcing → Outcome (Option Announcing)
  reg_from zero cur i a = spent
  reg_from (suc fuel) cur i a =
      if ltb cur tg
      then (if ltb (length a.mems) num
          then (rdma_reg_mr reg (ptr + cur) bs >>= λ r. elim r [
            | none ↦ ok none
            | some m ↦
                let s = entry (m.buf, m.rkey) ++ (0 ∷ []) in
                let next : Announcing = record {
                  mems = a.mems ++ m ∷ [];
                  text = copy_to a.text i s;
                } in
                let rest = reg_from fuel (cur + bs) (i + 25) next in
                if leb (i + length s) (length a.text) && leb (i + 25) 2147483647
                then rest
                else fault
          ])
          else fault)
      else ok (some a)

-- 2 GiB, which is `all` too.
abbrev pub tg : ℕ
tg = 2147483648

-- `num` is what main computes, an `int`; `text` is the memory at `data` with the bytes behind it that may be
-- written.
pub reg_memory : (ℕ → ℕ → Registration) → ℕ → ℕ → ℕ → ℕ → List ℕ → Outcome (Option Announcing)
unfolding reg_from
reg_memory reg fuel num ptr bs text =
    reg_from reg tg ptr bs num fuel 0 0 (record { mems = []; text = text })

-- dereg_memory, which ignores what is refused: the regions that are still registered.
pub dereg_memory : (Mem → Bool) → List Mem → List Mem
dereg_memory dereg [] = []
dereg_memory dereg (m ∷ ms) = if dereg m then dereg_memory dereg ms else m ∷ dereg_memory dereg ms

-- move: what memcpy writes at `dest`.
pub move : List ℕ → List ℕ → ℕ → ℕ → Outcome (List ℕ)
move dest src cur size =
    let index = cur % tg in
    if leb (index + size) (length src) && leb size (length dest)
    then ok (take size (drop index src) ++ drop size dest)
    else fault
