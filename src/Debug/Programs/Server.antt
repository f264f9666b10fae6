-- ===== src/Debug/Programs/Server.antt =====
-- server of debug/xx.cpp. What is printed and the clock are left out.
pub mod Stuck
use workd.Prelude.{
  ℕ, zero, suc, ◌*◌, Option, none, some, Bool, true, false, List, [], replicate, if◌then◌else◌,
}
use workd.Prelude.Int.{ℤ, pos}
use workd.Prelude.Outcome.{Outcome, ok, fault, ◌>>=◌}
use workd.Debug.Verbs.{Mem}
use workd.Debug.Buffers.{close}
use workd.Debug.Context.{Refusals, Held}
use workd.Debug.Setup.{Machine}
use workd.Debug.Devices.{Listed, get_device}
use workd.Debug.Door.{Door, World, session, accept}
use workd.Debug.Programs.Pattern.{check}
use workd.Debug.Programs.Transfer.{receive}
use workd.Debug.Programs.Client.{ethernet, client_params, int_product}

-- What closing meets: which regions deregister, which calls of the context's closing are refused,
-- and what the context holds.
pub record Ending : Type 0 where
  pub dereg : Mem → Bool
  pub refusals : Refusals
  pub held : Held

-- The check, and close where no letter is wrong; what close returns is only printed, and behind it
-- there is no return, for which the result is 0.
verdict : Ending → Door → ℕ → List ℕ → Outcome ℤ
verdict x d bytes ts = do
  right ← check bytes ts
  if right then (close x.dereg x.refusals x.held d.buffers >>= λ r. ok (pos 0)) else ok (pos 0)

-- From the open session on, over memory of `bytes` bytes that memset has set to b'a', through a null
-- pointer if malloc gave none (`memory`); without a send buffer no session opens.
serve : Ending → Bool → ℕ → ℕ → List ℕ → Door → Option Mem → Outcome ℤ
unfolding verdict
serve x false bytes fuel rbuf d m = fault
serve x true bytes fuel rbuf d none = fault
serve x true bytes fuel rbuf d (some m) =
    receive bytes fuel (session d m rbuf) [] >>= λ r. verdict x d bytes r.0

-- server. The numbers are not negative; `memory` is whether malloc gives the `bytes`.
pub server :
    World
    → Machine
    → Option (List Listed)
    → ℤ
    → Ending
    → Bool
    → ℕ
    → ℕ
    → ℕ
    → List ℕ
    → Door
    → Outcome ℤ
unfolding serve
server w machine devices sockfd x memory size iter fuel rbuf d = do
  name ← get_device devices ethernet
  d' ← accept w machine sockfd (client_params size iter name) d
  bytes ← int_product size iter
  serve x memory bytes fuel rbuf d' d'.buffers.send_mem
