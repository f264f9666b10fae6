-- ===== src/Examples/Stack.antt =====
-- The theorems about the set-up at concrete inputs.
use workd.Prelude.{ℕ, zero, suc, ◌≡◌, refl, ap, some, true, false, List, [], ◌∷◌, arith, length}
use workd.Prelude.Outcome.{ok}
use workd.Wire.Gid.{Gid}
use workd.Completion.Create.{set_nonblocking}
use workd.Device.{Port, Driver, make_port, add_ports, open_device}
use workd.Socket.Send.{total}
use workd.Stack.{Infiniband, Host, create_infiniband}
use workd.Stack.Ready.{CanStart, Up, create_infiniband-Up}
use workd.Examples.Socket.{message}

zeros : ℕ → List ℕ
zeros zero = []
zeros (suc n) = 0 ∷ zeros n

length-zeros : (n : ℕ) → length (zeros n) ≡ n
unfolding zeros
length-zeros zero = refl
length-zeros (suc n) = ap suc (length-zeros n)

abbrev gid : Gid
gid = record { w0 = 254; w1 = 0; w2 = 3; w3 = 4 }

abbrev driver : Driver
driver = record {
  name = 109 ∷ 48 ∷ [];
  opens = true;
  phys_port_cnt = 1;
  max_srq_wr = 1024;
  max_cqe = 4096;
  max_qp_wr = 512;
  query_port = λ n. some (record { is_active = true; lid = 5 });
  query_gid = λ n. some gid;
  unset_attr = record { is_active = false; lid = 0 };
  unset_gid = gid;
}

abbrev port : Port
port = record { port_num = 1; port_attr = record { is_active = true; lid = 5 }; lid = 5; gid = gid }

abbrev host : Host
host = record {
  drivers = driver ∷ [];
  alloc_pd = true;
  flags = some 2;
  takes_flags = λ f. true;
  reg = λ a n. some 7;
  rx_block = record { base = 4096; bytes = zeros 2097152 };
  tx_block = record { base = 4194304; bytes = zeros 2097152 };
  create_srq = λ a. some 3;
  accepts = λ q w. true;
}

host-CanStart : CanStart host 257 (109 ∷ 48 ∷ [])
unfolding open_device add_ports make_port set_nonblocking
host-CanStart = record {
  d = driver;
  others = [];
  p = port;
  srq = 3;
  key = λ a. 7;
  devices = refl;
  named = refl;
  opens = (refl, tt);
  active = refl;
  has_pd = refl;
  nonblocking = refl;
  registers = λ a. refl;
  rounds = omega arith;
  memory = length-zeros 2097152;
  given = (omega arith, omega arith);
  queue = λ a. refl;
  requests = λ q w h. refl;
}

create_infiniband-Up_example :
    (ib : Infiniband) × (create_infiniband 257 host (109 ∷ 48 ∷ []) ≡ ok ib)
    × Up host-CanStart.p 257 message ib
unfolding total
create_infiniband-Up_example =
    create_infiniband-Up host 257 (109 ∷ 48 ∷ []) message host-CanStart (omega arith) (omega arith)
      ((omega arith, omega arith), ((omega arith, omega arith), tt))
