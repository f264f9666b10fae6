-- ===== src/Stack/Opening.antt =====
-- What listening leaves open, and the core that a worker gets.
use mathlib.Core.List.{Mem, mem-cons_self, mem-cons_of_mem}
use workd.Prelude.{
  ℕ, zero, suc, ◌%◌, ◌<◌, ◌≡◌, refl, ◌⊎◌, inl, inr, Option, none, some, Bool, true, false, List, [],
  ◌∷◌, length, get_elem?, arith,
}
use workd.Prelude.Int.{ℤ, pos, minus_one}
use workd.Prelude.Outcome.{ok}
use workd.Stack.{Answers, close, give_up, server_listen, listen, to_size, get_cpuid}

-- How `listen` can end, of what it was answered.
pub data Listened (a : Answers) (fds : List ℕ) : ℤ × Option ℤ × List ℕ → Type 0 where
  listening :
      (fd : ℕ)
      → a.socket ≡ some fd
      → a.setsockopt ≡ true
      → a.bind ≡ true
      → Listened a fds (pos 0, some (pos fd), fd ∷ fds)
  refused :
      (a.socket ≡ none) ⊎ ((a.setsockopt ≡ false) ⊎ (a.bind ≡ false))
      → Listened a fds (minus_one, none, fds)

close-head : (fd : ℕ) (fds : List ℕ) → close fd (fd ∷ fds) ≡ fds
unfolding close
close-head fd fds = ground arith

listen_by :
    (socket : Option ℕ) (setsockopt bind : Bool) (fds : List ℕ)
    → Listened
        (record { socket = socket; setsockopt = setsockopt; bind = bind })
        fds
        (listen (record { socket = socket; setsockopt = setsockopt; bind = bind }) fds)
unfolding listen server_listen give_up
listen_by none setsockopt bind fds = refused (inl refl)
listen_by (some fd) true true fds = listening fd refl refl refl
listen_by (some fd) true false fds = rw (close-head fd fds) (refused (inr (inr refl)))
listen_by (some fd) false bind fds = rw (close-head fd fds) (refused (inr (inl refl)))

-- Listening leaks no descriptor: if the socket is made, takes its option and is bound, `listen`
-- returns 0 with a ServerSocket for it and it alone is open besides what was; if one of the three
-- fails the result is -1, no ServerSocket is handed out, and what is open is what was open before.
pub listen-Listened : (a : Answers) (fds : List ℕ) → Listened a fds (listen a fds)
listen-Listened a fds = listen_by a.socket a.setsockopt a.bind fds

get_elem?_Mem :
    (cs : List ℤ) (i : ℕ) → i < length cs → (c : ℤ) × (get_elem? cs i ≡ some c) × Mem c cs
get_elem?_Mem [] i h = absurd (omega arith)
get_elem?_Mem (c ∷ cs) zero h = (c, refl, mem-cons_self)
get_elem?_Mem (c ∷ cs) (suc i) h =
    let (c', e, m) = get_elem?_Mem cs i (omega arith) in (c', e, mem-cons_of_mem c m)

-- The core of a worker is always one of those configured, for every number, negative ones too;
-- where none is configured it is -1.
pub get_cpuid-Mem :
    (cs : List ℤ) (id : ℤ)
    → (c : ℤ) × (get_cpuid cs id ≡ ok c) × (((cs ≡ []) × (c ≡ minus_one)) ⊎ Mem c cs)
unfolding get_cpuid
get_cpuid-Mem [] id = (minus_one, refl, inl (refl, refl))
get_cpuid-Mem (c ∷ cs) id =
    let (c', e, m) = get_elem?_Mem (c ∷ cs) (to_size id % length (c ∷ cs)) (omega arith) in
    (c', rw (e, get_cpuid) refl, inr m)
