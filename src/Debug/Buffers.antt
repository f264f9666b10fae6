-- ===== src/Debug/Buffers.antt =====
-- The buffers of rdma_session (debug/rdma_session.cpp): reg_mem, post_recv and close.

pub mod Posting
pub mod Registering
pub mod Closing
use workd.Prelude.{
  ℕ, zero, suc, ◌+◌, ◌-◌, ◌*◌, ◌%◌, Option, none, some, Bool, true, false, ◌&&◌, List, [], ◌∷◌,
  ◌==◌, ltb, leb, get_elem?, if◌then◌else◌,
}
use workd.Prelude.Int.{ℤ, pos, minus_one, is_zero}
use workd.Prelude.Outcome.{Outcome, ok, fault, ◌>>=◌}
use workd.Debug.Verbs.{
  Registration, Mem, Wr, other_op, Task, rdma_post_recv, rdma_reg_mr, rdma_dereg_mr,
}
use workd.Debug.HugePages.{Area, malloc_huge_pages, free_huge_pages}
use workd.Debug.Context.{Refusals, Held, rdma_close_ctx}

-- The members; a pointer that is not set is null. `areas` are what the allocator has given.
pub record Buffers : Type 0 where
  pub recv_nums : ℕ
  pub gap : ℕ
  pub recv_index : ℕ
  pub posted_recv : ℕ
  pub recv_mem : Option (List Mem)
  pub rbuf : Option ℕ
  pub sbuf : Option ℕ
  pub send_mem : Option Mem
  pub slices : ℕ
  pub rw_mem : Option (List Mem)
  pub ctx_rw : Option Mem
  pub qbuf : Option ℕ
  pub rkeys : Option ℕ
  pub raddrs : Option ℕ
  pub rwbuf : Option ℕ
  pub areas : List Area

-- What `reg_mem` meets: the registration, the allocator, and whether malloc gives the array.
pub record Supply : Type 0 where
  pub reg : ℕ → ℕ → Registration
  pub mmap : ℕ → Option ℕ
  pub malloc : ℕ → Option ℕ
  pub has_array : Bool

-- free: of what is the start of no area it is undefined. The header page is malloc_huge_pages's
-- own.
pub free : ℕ → List Area → Outcome (List Area)
free ptr [] = fault
free ptr (a ∷ areas) =
    let rest = free ptr areas >>= λ r. ok (a ∷ r) in
    if a.base == ptr then (if a.mapped then fault else ok areas) else rest

-- free of a member, which may be null.
abbrev pub free_member : Option ℕ → List Area → Outcome (List Area)
free_member none areas = ok areas
free_member (some ptr) areas = free ptr areas

-- The loop over the receive buffers from `i` on: those that register, and whether all `n` did.
pub register_recv : (ℕ → ℕ → Registration) → ℕ → ℕ → ℕ → ℕ → Outcome (List Mem × Bool)
register_recv reg rbuf gap zero i = ok ([], true)
register_recv reg rbuf gap (suc n) i =
    let rest = register_recv reg rbuf gap n (i + 1) in
    rdma_reg_mr reg (rbuf + gap * i) gap >>= λ r. elim r [
      | none ↦ ok ([], false)
      | some m ↦ rest >>= λ p. ok (m ∷ p.0, p.1)
    ]

-- The send buffer at `p`, with what its registration gave; where that is a null pointer,
-- `rdma_dereg_mr` goes through it.
hold_send : Buffers → ℕ → List Area → Option Mem → Outcome Buffers
hold_send b p areas none = fault
hold_send b p areas (some m) = ok (record b { sbuf = some p; send_mem = some m; areas = areas })

place_send : Supply → Buffers → Option ℕ → List Area → Outcome Buffers
unfolding hold_send
place_send y b none areas = ok (record b { sbuf = none; areas = areas })
place_send y b (some p) areas = rdma_reg_mr y.reg p b.gap >>= hold_send b p areas

register_send : Supply → Buffers → Outcome Buffers
unfolding place_send
register_send y b =
    let (sbuf, areas) = malloc_huge_pages y.mmap y.malloc b.gap b.areas in place_send y b sbuf areas

-- Where a receive buffer does not register, the memory is freed and nothing more is done.
hold_recv : Supply → Buffers → ℕ → Bool → Outcome Buffers
unfolding register_send free
hold_recv y b p true = register_send y b
hold_recv y b p false = free p b.areas >>= λ a. ok (record b { areas = a })

-- The receive buffers at `rbuf`.
place_recv : Supply → Buffers → Option ℕ → List Area → Outcome Buffers
unfolding register_recv hold_recv
place_recv y b none areas =
    ok (record b { recv_index = 0; recv_mem = some []; rbuf = none; areas = areas })
place_recv y b (some p) areas = register_recv y.reg p b.gap b.recv_nums 0 >>= λ r.
    hold_recv y (record b { recv_index = 0; recv_mem = some r.0; rbuf = some p; areas = areas }) p
      r.1

-- `reg_mem`, which returns nothing.
pub reg_mem : Supply → Buffers → ℕ → Outcome Buffers
unfolding place_recv
reg_mem y b size =
    if y.has_array
    then (let (rbuf, areas) = malloc_huge_pages y.mmap y.malloc (size * b.recv_nums) b.areas in
        place_recv y b rbuf areas)
    else ok (record b { recv_index = 0; recv_mem = none })

-- `task` of `post_recv`; the members that it leaves out are 0.
pub recv_task : Mem → Task
recv_task m = record { mem = m; opcode = other_op; size = 0; rkey = 0; remote_addr = 0; id = 666 }

module _ (takes : List Wr → Wr → Bool) (refused : ℕ) where
  -- The loop from `i` on, with `n` rounds left: the result, `i`, and the requests that the queue
  -- has taken.
  pub post_from : ℕ → List Mem → ℕ → ℕ → List Wr → Outcome (ℤ × ℕ × List Wr)
  post_from recv_nums recv_mem zero i rq = ok (pos 0, i, rq)
  post_from recv_nums recv_mem (suc n) i rq = elim (get_elem? recv_mem (i % recv_nums)) [
    | none ↦ fault
    | some m ↦
        let (r, rq') = rdma_post_recv takes refused rq (recv_task m) in
        let rest = post_from recv_nums recv_mem n (i + 1) rq' in
        if is_zero r then rest else ok (r, i, rq')
  ]

  -- The loop as `post_recv` starts it. With no receive buffers it divides by 0.
  pub post_all : ℕ → Option (List Mem) → ℕ → List Wr → Outcome (ℤ × ℕ × List Wr)
  unfolding post_from
  post_all recv_nums recv_mem nums rq = if recv_nums == 0 then fault else elim recv_mem [
    | none ↦ fault
    | some ms ↦ post_from recv_nums ms (if ltb nums 16000 then nums else 16000) 0 rq
  ]

  -- `nums` is not negative here.
  pub post_recv : Buffers → ℕ → List Wr → Outcome (ℤ × Buffers × List Wr)
  unfolding post_all
  post_recv b nums rq = do
    (r, i, rq') ← post_all b.recv_nums b.recv_mem nums rq
    ok (r, if is_zero r then record b { posted_recv = b.posted_recv + i } else b, rq')

-- A loop over the first `n` regions of an array, whose other elements are no regions: whether none
-- is refused; the first that is ends it.
dereg_list : (Mem → Bool) → ℕ → List Mem → Outcome Bool
dereg_list dereg zero ms = ok true
dereg_list dereg (suc n) [] = fault
dereg_list dereg (suc n) (m ∷ ms) =
    let rest = dereg_list dereg n ms in if is_zero (rdma_dereg_mr dereg m) then rest else ok false

dereg_array : (Mem → Bool) → ℕ → Option (List Mem) → Outcome Bool
unfolding dereg_list
dereg_array dereg n none = ok true
dereg_array dereg n (some ms) = dereg_list dereg n ms

dereg_member : (Mem → Bool) → Option Mem → Outcome Bool
dereg_member dereg none = ok true
dereg_member dereg (some m) = ok (is_zero (rdma_dereg_mr dereg m))

-- The second half of `close`.
release_all : Refusals → Held → Buffers → Outcome (ℤ × Held × List Area)
unfolding free
release_all f held b = do
  a1 ← free_member b.rbuf b.areas
  a2 ← free_member b.sbuf a1
  a3 ← free_member b.qbuf a2
  a4 ← free_member b.rkeys a3
  a5 ← free_member b.raddrs a4
  a6 ← free_huge_pages b.rwbuf a5
  let (r, held') = rdma_close_ctx f held
  ok (r, held', a6)

-- A step of `close`: what follows it, or the result `r` where a region is refused.
abbrev pub step :
    Outcome Bool
    → ℤ
    → Held
    → Buffers
    → Outcome (ℤ × Held × List Area)
    → Outcome (ℤ × Held × List Area)
step o r held b next = o >>= λ all. if all then next else ok (r, held, b.areas)

-- `close`; `dereg` is whether a region can be deregistered.
pub close : (Mem → Bool) → Refusals → Held → Buffers → Outcome (ℤ × Held × List Area)
unfolding dereg_array dereg_member release_all
close dereg f held b = step (dereg_array dereg b.recv_nums b.recv_mem) minus_one held b (
    step (dereg_member dereg b.send_mem) (pos 1) held b (
      step (dereg_array dereg b.slices b.rw_mem) minus_one held b
        (step (dereg_member dereg b.ctx_rw) minus_one held b (release_all f held b))))
