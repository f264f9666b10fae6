-- ===== src/Debug/Bulk.antt =====
-- rdma_session::bulk of debug/rdma_session.cpp.
pub mod Regions
pub mod Whole
pub mod Landed
use workd.Prelude.{
  ℕ, zero, suc, ◌+◌, ◌-◌, ◌*◌, ◌/◌, ◌%◌, Option, none, some, Bool, true, false, List, [], ◌∷◌, ◌++◌,
  ◌==◌, ltb, leb, length, if◌then◌else◌,
}
use workd.Prelude.Int.{ℤ, pos, negsuc, minus_one, is_zero}
use workd.Prelude.Outcome.{Outcome, ok, fault, spent, ◌>>=◌}
use workd.Debug.Verbs.{Registration, Mem, Wr, Queues, rdma_query_cq, rdma_reg_mr, rdma_dereg_mr}
use workd.Debug.Session.{Session, rdma}

-- The number of regions, for which `bulk_mems` has room.
unfoldable pub num_regions : ℕ → ℕ → ℕ
num_regions gap size = if size % gap == 0 then size / gap + 1 - 1 else size / gap + 1

module _ (reg : ℕ → ℕ → Registration) (gap ptr size : ℕ) where
  -- The loop that registers, from `cursor` on; `none` where a region does not register.
  pub register_from : ℕ → ℕ → Outcome (Option (List Mem))
  register_from zero cursor = spent
  register_from (suc fuel) cursor =
      let len = if leb gap (size - cursor) then gap else size - cursor in
      let rest = register_from fuel (cursor + len) in
      if ltb cursor size
      then (rdma_reg_mr reg (ptr + cursor) len >>= λ r. elim r [
        | none ↦ ok none
        | some m ↦ rest >>= λ ms. ok (elim ms [ none ↦ none | some l ↦ some (m ∷ l) ])
      ])
      else ok (some [])

module _ (takes : List Wr → Wr → Bool) where
  -- The loop that posts; the first failure ends it.
  pub write_all : Session → List Mem → Outcome (ℤ × Session)
  write_all s [] = ok (pos 0, s)
  write_all s (m ∷ ms) = do
    (r, s') ← rdma takes s m
    if is_zero r then write_all s' ms else ok (minus_one, s')

-- The loop that counts the completions, by rounds of fuel: `while(ack != num)`.
pub await : ℕ → Queues → ℕ → ℕ → Outcome (ℤ × Queues)
await zero q ack num = spent
await (suc fuel) q ack num = elim (ack == num) [
  | true ↦ ok (pos 0, q)
  | false ↦ rdma_query_cq q 1 >>= λ r. elim r.0 [
    | pos n ↦ await fuel r.2 (ack + n) num
    | negsuc n ↦ ok (minus_one, r.2)
  ]
]

pub dereg_all : (Mem → Bool) → List Mem → ℤ
dereg_all dereg [] = pos 0
dereg_all dereg (m ∷ ms) = if is_zero (rdma_dereg_mr dereg m) then dereg_all dereg ms else minus_one

-- With a gap of 0 it divides by 0. `fuel` rounds at most of the first loop and of the third; more
-- regions than `bulk_mems` has room for would be written past its end.
unfoldable pub bulk :
    (ℕ → ℕ → Registration)
    → (Mem → Bool)
    → (List Wr → Wr → Bool)
    → ℕ
    → Session
    → ℕ
    → ℕ
    → Outcome (ℤ × Session)
unfolding register_from write_all await dereg_all
bulk reg dereg takes fuel s iptr size =
    let num = num_regions s.rdma_gap size in
    if s.rdma_gap == 0 then fault else (do
      mems ← register_from reg s.rdma_gap iptr size fuel 0
      (elim mems [
        | none ↦ ok (minus_one, s)
        | some bulk_mems ↦
            if leb (length bulk_mems) num
            then (do
              (r, s') ← write_all takes s bulk_mems
              (if is_zero r
                  then (do
                    (r', q) ← await fuel s'.queues 0 num
                    ok (
                      if is_zero r' then dereg_all dereg bulk_mems else minus_one,
                      record s' { queues = q },
                    ))
                  else ok (minus_one, s')))
            else fault
      ]))
