-- ===== src/Debug/Programs/Transfer/Stuck.antt =====
-- Why the server of debug/xx.cpp waits for ever.
use mathlib.Core.List.{append-nil}
use workd.Prelude.{ℕ, zero, suc, ◌+◌, ◌≤◌, ◌<◌, ◌≡◌, refl, true, List, length, leb, arith, lt→ltb}
use workd.Prelude.Outcome.{spent}
use workd.Debug.Session.{Session}
use workd.Debug.Session.Read.{read_nothing}
use workd.Debug.Programs.Transfer.{receive}

-- The server never ends its loop: for any number of bytes that it still waits for, whatever comes
-- in and however often it reads, `read` gives it none of them.
pub receive_stuck :
    (bytes fuel : ℕ) (s : Session) (got : List ℕ)
    → s.recv_index < s.recv_nums
    → length got < bytes
    → receive bytes fuel s got ≡ spent
unfolding receive
receive_stuck bytes zero s got h some_left = refl
receive_stuck bytes (suc fuel) s got h some_left =
    rw
      (
        lt→ltb (length got) bytes some_left,
        read_nothing s h,
        fits (length got + 0) bytes (omega (arith, some_left)),
        append-nil,
        receive,
      )
      (receive_stuck bytes fuel s got h some_left)
  where
    fits : (a b : ℕ) → a ≤ b → leb a b ≡ true
    fits a b l = ground arith
