-- ===== src/Examples/Sides.antt =====
-- Two sides in front of their exchange, for the programs of debug/.
use workd.Prelude.{ℕ, ◌≡◌, refl, Option, some, true, false, List, [], ◌∷◌, arith}
use workd.Prelude.Outcome.{ok}
use workd.Debug.Verbs.{InitParams, rdma_reg_mr, socket_params}
use workd.Debug.Exchange.Laws
use workd.Debug.Setup.{
  Machine, find_device, local_gid, local_mem, local_info, describe, Prepared, prepare,
}
use workd.Debug.Setup.Linked.{Side}
use workd.Debug.Context.{
  nothing, active_port, make_channel, make_pd, make_cqs, make_qp, init_rdma_context,
}
use workd.Debug.Exchange.{InfoCon}
use workd.Device.{same_text}
use workd.Connect.QueuePair.{zero_gid}
use workd.Debug.Devices.{Listed, ethernet, link_layer_str, has_layer, find_layer, get_device}
use workd.Debug.Programs.Client
use workd.Debug.Programs.Client.{zero_params, client_params, client}
use workd.Debug.Programs.Server.{Ending}
use workd.Prelude.Int.{pos}
use workd.Examples.Setup.{
  client_info, server_info, client_info-IsInfo, server_info-IsInfo, context, machine,
}

-- The device of both sides, and the parameters of three messages of four bytes.
abbrev pub device : List ℕ
device = 109 ∷ []

abbrev pub params : InitParams
params = record zero_params {
  gidx = pos 0;
  ib_devname = some device;
  sr = 1;
  rx_depth = 3;
  mem_size = 4;
}

abbrev pub devices : Option (List Listed)
devices = some (record { name = device; opens = true; port1 = some ethernet } ∷ [])

abbrev net_machine : InfoCon → InfoCon → Machine
net_machine i other = record (machine i (Laws.text other)) { query_gid = λ n. some zero_gid }

abbrev pub client_machine : Machine
client_machine = net_machine client_info server_info

abbrev pub server_machine : Machine
server_machine = net_machine server_info client_info

abbrev pub prepared : InfoCon → Prepared
prepared i = record {
  context = record context { has_channel = false };
  my_info = i;
  mem = some (record { buf = i.addr; size = 4; lkey = 5; rkey = i.rkey });
}

pub client-Side :
    Side client_machine (socket_params params) (prepared client_info) (Laws.text server_info)
unfolding prepare find_device describe local_gid local_mem local_info rdma_reg_mr init_rdma_context
    make_channel make_pd make_cqs make_qp active_port socket_params same_text
client-Side = record {
  prepared = refl;
  info_valid = client_info-IsInfo;
  lid_small = omega arith;
  streams = (refl, refl);
  arrival = refl;
  fresh = server_info;
  malloc = refl;
  host = refl;
}

pub server-Side :
    Side server_machine
      (socket_params (record params { sockfd = pos 4 }))
      (prepared server_info)
      (Laws.text client_info)
unfolding prepare find_device describe local_gid local_mem local_info rdma_reg_mr init_rdma_context
    make_channel make_pd make_cqs make_qp active_port socket_params same_text
server-Side = record {
  prepared = refl;
  info_valid = server_info-IsInfo;
  lid_small = omega arith;
  streams = (refl, refl);
  arrival = refl;
  fresh = server_info;
  malloc = refl;
  host = refl;
}

pub has_device : get_device devices Client.ethernet ≡ ok device
unfolding get_device find_layer has_layer link_layer_str same_text
has_device = refl

abbrev pub ending : Ending
ending = record {
  dereg = λ m. true;
  refusals = record {
    qp = false;
    send_cq = false;
    recv_cq = false;
    pd = false;
    channel = false;
    device = false;
  };
  held = nothing;
}
