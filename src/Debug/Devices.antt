-- ===== src/Debug/Devices.antt =====
-- open_server, link_layer_str and get_device of debug/rdma_socket.c.
pub mod Laws
use workd.Prelude.{
  ℕ, Option, none, some, Bool, true, false, List, [], ◌∷◌, ◌++◌, ◌==◌, if◌then◌else◌,
}
use workd.Prelude.Int.{ℤ, pos, minus_one}
use workd.Prelude.Outcome.{Outcome, ok, fault}
use workd.Device.{same_text}

-- What an address of the list is answered: the socket, if one is given, and whether it can be
-- bound.
pub record Address : Type 0 where
  pub socket : Option ℕ
  pub binds : Bool

-- close
pub close_socket : ℕ → List ℕ → List ℕ
close_socket fd [] = []
close_socket fd (s ∷ ss) = if s == fd then ss else s ∷ close_socket fd ss

-- The loop, over the open sockets: it ends with `sockfd`, which is -1 where none could be bound.
pub try_addresses : List Address → List ℕ → ℤ × List ℕ
try_addresses [] open_sockets = (minus_one, open_sockets)
try_addresses (t ∷ ts) open_sockets = elim t.socket [
  | none ↦ try_addresses ts open_sockets
  | some fd ↦
      let rest = try_addresses ts (close_socket fd (fd ∷ open_sockets)) in
      if t.binds then (pos fd, fd ∷ open_sockets) else rest
]

-- `prints` is whether asprintf gives the text; the addresses are `none` where getaddrinfo fails.
unfoldable pub open_server : Bool → Option (List Address) → List ℕ → ℤ × List ℕ
unfolding try_addresses close_socket
open_server prints addresses open_sockets =
    if prints
    then (elim addresses [
      | none ↦ (minus_one, open_sockets)
      | some ts ↦ try_addresses ts open_sockets
    ])
    else (minus_one, open_sockets)

-- `link_layer` of a port.
pub data LinkLayer : Type 0 where
  unspecified infiniband ethernet other_layer : LinkLayer

-- "IB", "Ethernet" and "Unknown"
unfoldable pub link_layer_str : LinkLayer → List ℕ
link_layer_str unspecified = 73 ∷ 66 ∷ []
link_layer_str infiniband = 73 ∷ 66 ∷ []
link_layer_str ethernet = 69 ∷ 116 ∷ 104 ∷ 101 ∷ 114 ∷ 110 ∷ 101 ∷ 116 ∷ []
link_layer_str other_layer = 85 ∷ 110 ∷ 107 ∷ 110 ∷ 111 ∷ 119 ∷ 110 ∷ []

-- A device: its name, whether it can be opened, and the layer of its port 1, if that can be
-- queried.
pub record Listed : Type 0 where
  pub name : List ℕ
  pub opens : Bool
  pub port1 : Option LinkLayer

-- The test in the loop.
unfoldable pub has_layer : List ℕ → Listed → Bool
unfolding link_layer_str
has_layer name d = elim d.port1 [ none ↦ false | some l ↦ same_text name (link_layer_str l) ]

-- The loop. A device that does not open is queried through a null pointer, and behind the last one
-- there is no return.
unfoldable pub find_layer : List ℕ → List Listed → Outcome (List ℕ)
unfolding has_layer
find_layer name [] = fault
find_layer name (d ∷ ds) =
    let rest = find_layer name ds in
    if d.opens then (if has_layer name d then ok d.name else rest) else fault

-- Without a list it goes through a null pointer.
unfoldable pub get_device : Option (List Listed) → List ℕ → Outcome (List ℕ)
unfolding find_layer
get_device none name = fault
get_device (some ds) name = find_layer name ds
