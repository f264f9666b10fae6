-- ===== src/Debug/Programs/Client.antt =====
-- client of debug/xx.cpp up to its measurements, and the parameters with which the programs of
-- debug/ open their sessions.
pub mod Laws
use workd.Prelude.{ℕ, ◌*◌, ltb, if◌then◌else◌, Option, none, some, false, List, [], ◌∷◌}
use workd.Prelude.Int.{ℤ, pos}
use workd.Prelude.Outcome.{Outcome, ok, fault, ◌>>=◌}
use workd.Debug.Verbs.{Mem, InitParams}
use workd.Debug.Setup.{Machine}
use workd.Debug.Devices.{Listed, get_device}
use workd.Debug.Door.{Door, World, connect}
use workd.Debug.Programs.Pattern.{fill}
use workd.Debug.Programs.Transfer.{Sending, send_all}

-- struct init_params params = {}
abbrev pub zero_params : InitParams
zero_params = record {
  port = 0;
  ib_port = 0;
  gidx = pos 0;
  use_event = false;
  rx_depth = 0;
  sockfd = pos 0;
  mem_size = 0;
  mtu = 0;
  ib_devname = none;
  sr = 0;
}

-- Those of client and server.
unfoldable pub client_params : ℕ → ℕ → List ℕ → InitParams
client_params size iter name = record zero_params {
  gidx = pos 0;
  ib_devname = some name;
  sr = 1;
  rx_depth = iter;
  mem_size = size;
}

-- Those of connect in regread.cpp, cpyread.cpp and migration.cpp.
unfoldable pub connect_params : ℕ → List ℕ → InitParams
connect_params size name = record zero_params {
  mem_size = size;
  ib_devname = some name;
  gidx = pos 0;
}

-- "Ethernet"
abbrev pub ethernet : List ℕ
ethernet = 69 ∷ 116 ∷ 104 ∷ 101 ∷ 114 ∷ 110 ∷ 101 ∷ 116 ∷ []

-- The messages, out of the send buffer if there is one.
send_messages : World → ℕ → ℕ → Option Mem → Sending → List ℕ → Outcome (ℤ × Sending)
send_messages w size fuel none s ts = fault
send_messages w size fuel (some m) s ts = send_all w.takes m ts size fuel s

-- size*iter, of two numbers that are not negative: past `int` it is undefined.
unfoldable pub int_product : ℕ → ℕ → Outcome ℕ
int_product size iter = if ltb (size * iter) 2147483648 then ok (size * iter) else fault

-- What malloc gave is used without a look at it.
with_memory : Option (List ℕ) → (List ℕ → Outcome (List ℕ)) → Outcome (List ℕ)
with_memory none f = fault
with_memory (some ts) f = f ts

-- client; `flag` is what the session's constructor leaves unset, `ts` the memory that malloc gave,
-- if it gave any. The numbers are not negative.
pub client :
    World
    → Machine
    → Option (List Listed)
    → ℕ
    → ℕ
    → ℕ
    → ℕ
    → Option (List ℕ)
    → Door
    → Outcome (ℤ × Sending)
unfolding send_messages int_product with_memory
client w machine devices flag size iter fuel ts d = do
  name ← get_device devices ethernet
  d' ← connect w machine flag (client_params size iter name) d
  n ← int_product size iter
  bytes ← with_memory ts (fill n)
  send_messages w size fuel d'.buffers.send_mem (record { door = d'; wire = [] }) bytes
