-- ===== src/Debug/Buffers/Closing.antt =====
-- Where close ends.
use workd.Prelude.{
  zero, suc, ◌⊎◌, inl, inr, ℕ, ◌≡◌, ◌≢◌, refl, Option, none, some, Bool, true, List, [], ◌∷◌, All,
  arith,
}
use workd.Prelude.Int.{ℤ}
use workd.Prelude.Outcome.{Outcome, ok, fault}
use workd.Debug.Verbs.{Mem, rdma_dereg_mr}
use workd.Debug.HugePages.{Area}
use workd.Debug.Context.{Refusals, Held}
use workd.Debug.Buffers.{
  Buffers, step, free, dereg_list, dereg_member, dereg_array, release_all, close,
}

free_inside : (ptr : ℕ) (areas : List Area) → All (λ a. a.base ≢ ptr) areas → free ptr areas ≡ fault
unfolding free
free_inside ptr [] h = refl
free_inside ptr (a ∷ areas) h = ground (arith, free_inside ptr areas h.1, h.0)

-- A test that nothing is refused by, or that faults.
Passes : Outcome Bool → Type 0
Passes o = (o ≡ ok true) ⊎ (o ≡ fault)

dereg_list-Passes :
    (dereg : Mem → Bool) (n : ℕ) (ms : List Mem)
    → ((m : Mem) → dereg m ≡ true)
    → Passes (dereg_list dereg n ms)
unfolding dereg_list rdma_dereg_mr Passes
dereg_list-Passes dereg zero ms h = inl refl
dereg_list-Passes dereg (suc n) [] h = inr refl
dereg_list-Passes dereg (suc n) (m ∷ ms) h = rw (h m) (dereg_list-Passes dereg n ms h)

dereg_array-Passes :
    (dereg : Mem → Bool) (n : ℕ) (o : Option (List Mem))
    → ((m : Mem) → dereg m ≡ true)
    → Passes (dereg_array dereg n o)
unfolding dereg_array Passes
dereg_array-Passes dereg n none h = inl refl
dereg_array-Passes dereg n (some ms) h = dereg_list-Passes dereg n ms h

dereg_member-Passes :
    (dereg : Mem → Bool) (o : Option Mem)
    → ((m : Mem) → dereg m ≡ true)
    → Passes (dereg_member dereg o)
unfolding dereg_member rdma_dereg_mr Passes
dereg_member-Passes dereg none h = inl refl
dereg_member-Passes dereg (some m) h = inl (rw (h m) refl)

step_fault :
    (o : Outcome Bool) (r : ℤ) (held : Held) (b : Buffers) (next : Outcome (ℤ × Held × List Area))
    → Passes o
    → next ≡ fault
    → step o r held b next ≡ fault
unfolding Passes
step_fault o r held b next (inl e) f = rw (e, f) refl
step_fault o r held b next (inr e) f = rw e refl

-- A session whose receive buffers come from `malloc_huge_pages` cannot be closed: their address
-- lies behind the first page of an area, where no area starts, and even where every region can be
-- deregistered `close` faults, at the latest when it passes this address to free.
pub close_inside :
    (dereg : Mem → Bool) (f : Refusals) (held : Held) (b : Buffers) (p : ℕ)
    → ((m : Mem) → dereg m ≡ true)
    → b.rbuf ≡ some p
    → All (λ a. a.base ≢ p) b.areas
    → close dereg f held b ≡ fault
unfolding close release_all
close_inside dereg f held b p h e away =
    step_fault _ _ held b _ (dereg_array-Passes dereg b.recv_nums b.recv_mem h) (
      step_fault _ _ held b _ (dereg_member-Passes dereg b.send_mem h) (
        step_fault _ _ held b _ (dereg_array-Passes dereg b.slices b.rw_mem h)
          (step_fault _ _ held b _ (dereg_member-Passes dereg b.ctx_rw h) ending)))
  where
    ending : release_all f held b ≡ fault
    ending = rw (e, free_inside p b.areas away, release_all) refl
