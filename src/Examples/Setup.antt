-- ===== src/Examples/Setup.antt =====
-- The theorems about the set-up of the stand-alone client at concrete inputs.
use workd.Prelude.{
  Bool, map, ◌<◌, ℕ, zero, suc, ap, ◌+◌, ◌≤◌, ◌≡◌, refl, ◌⊎◌, none, some, true, false, Option, List,
  [], ◌∷◌, ◌++◌, arith, length,
}
use workd.Prelude.Int.{pos, minus_one}
use workd.Prelude.Outcome.{ok}
use workd.Connect.QueuePair.{zero_gid}
use workd.Debug.Context
use workd.Debug.Context.{
  Context, active_port, make_channel, make_pd, make_cqs, make_qp, init_rdma_context,
}
use workd.Debug.Verbs.{mr_recorded, InitParams, Mem, Wr, rdma_reg_mr}
use workd.Debug.Exchange.{InfoCon, Memory, sprint_info, read_info, rts_attr}
use workd.Debug.Exchange.Laws.{IsInfo, text, read_info-sprint_info}
use workd.Debug.Exchange.Paired.{Ends}
use workd.Debug.Setup.{
  Machine, find_device, local_gid, local_mem, local_info, describe, Prepared, prepare,
  connect_params, create_context,
}
use workd.Debug.Setup.Linked.{Side, linked, create_context-linked}
use workd.Debug.Slices.{Region, slices_text, start_remote}
use workd.Debug.Slices.Laws.{start_remote-slices_text}
use workd.Debug.Buffers.{Buffers, post_recv}
use workd.Debug.Buffers.Posting.{recv_request, turns, at_most, post_recv_lem}
use workd.Debug.HugePages.{huge_page_size, Area, malloc_huge_pages, free_huge_pages}
use workd.Debug.HugePages.Laws.{malloc-free}

abbrev pub client_info : InfoCon
client_info = record {
  lid = 17;
  qpn = 70;
  psn = 1193046;
  rkey = 900;
  addr = 140000;
  gid = zero_gid;
}

abbrev pub server_info : InfoCon
server_info = record { lid = 18; qpn = 71; psn = 99; rkey = 901; addr = 150000; gid = zero_gid }

pub client_info-IsInfo : IsInfo client_info
client_info-IsInfo = record {
  lid_small = omega arith;
  qpn_small = omega arith;
  psn_small = omega arith;
  rkey_small = omega arith;
  addr_small = omega arith;
  gid_valid = record {
    small0 = omega arith;
    small1 = omega arith;
    small2 = omega arith;
    small3 = omega arith;
  };
}

pub server_info-IsInfo : IsInfo server_info
server_info-IsInfo = record {
  lid_small = omega arith;
  qpn_small = omega arith;
  psn_small = omega arith;
  rkey_small = omega arith;
  addr_small = omega arith;
  gid_valid = record {
    small0 = omega arith;
    small1 = omega arith;
    small2 = omega arith;
    small3 = omega arith;
  };
}

abbrev memory : Memory
memory = record { malloc = some server_info; gid = []; v32 = 0; host = true }

read_info-sprint_info_example :
    (msg : List ℕ) × (sprint_info client_info ≡ ok msg)
    × (length msg ≡ 86)
    × (read_info msg server_info memory ≡ ok client_info)
read_info-sprint_info_example =
    read_info-sprint_info client_info server_info memory client_info-IsInfo

abbrev answers : Context.Answers
answers = record {
  calloc = true;
  open_device = true;
  query_port = λ n. some true;
  create_comp_channel = true;
  alloc_pd = true;
  create_recv_cq = true;
  create_send_cq = true;
  create_qp = true;
  modify_qp = true;
}

abbrev params : InitParams
params = record {
  port = 18185;
  ib_port = 1;
  gidx = minus_one;
  use_event = true;
  rx_depth = 16000;
  sockfd = pos 4;
  mem_size = 4096;
  mtu = 3;
  ib_devname = none;
  sr = 0;
}

abbrev pub context : Context
context = record {
  ib_port = 1;
  has_channel = true;
  cqe = 16001;
  max_send_wr = 10000;
  max_recv_wr = 16000;
}

-- A machine with its own LID, number, sequence number, memory and key, which reads what is given.
abbrev pub machine : InfoCon → List ℕ → Machine
machine i arrives = record {
  devices = some ((109 ∷ []) ∷ []);
  answers = answers;
  notifies = true;
  lid = i.lid;
  infiniband = true;
  query_gid = λ n. none;
  qp = record { qp_num = i.qpn; calls = [] };
  memalign = some i.addr;
  reg = λ a n. mr_recorded (5, i.rkey);
  random = i.psn;
  unset = i;
  stream = record { connects = true; writes = true; reads = some arrives };
  memory = memory;
  takes = λ cs c. true;
}

abbrev pub prepared : InfoCon → Prepared
prepared i = record {
  context = context;
  my_info = i;
  mem = some (record { buf = i.addr; size = 4096; lkey = 5; rkey = i.rkey });
}

client-Side :
    Side (machine client_info (text server_info)) params (prepared client_info) (text server_info)
unfolding prepare find_device describe local_gid local_mem local_info rdma_reg_mr init_rdma_context
    make_channel make_pd make_cqs make_qp active_port
client-Side = record {
  prepared = refl;
  info_valid = client_info-IsInfo;
  lid_small = omega arith;
  streams = (refl, refl);
  arrival = refl;
  fresh = server_info;
  malloc = refl;
  host = refl;
}

server-Side :
    Side (machine server_info (text client_info)) params (prepared server_info) (text client_info)
unfolding prepare find_device describe local_gid local_mem local_info rdma_reg_mr init_rdma_context
    make_channel make_pd make_cqs make_qp active_port
server-Side = record {
  prepared = refl;
  info_valid = server_info-IsInfo;
  lid_small = omega arith;
  streams = (refl, refl);
  arrival = refl;
  fresh = server_info;
  malloc = refl;
  host = refl;
}

create_context-linked_example :
    (create_context (machine client_info (text server_info)) false params
      ≡ ok (
          some (
            linked
              (machine client_info (text server_info))
              params
              (prepared client_info)
              (prepared server_info))))
    × (create_context (machine server_info (text client_info)) true params
        ≡ ok (
            some (
              linked
                (machine server_info (text client_info))
                params
                (prepared server_info)
                (prepared client_info))))
    × Ends
        (rts_attr (connect_params params (prepared client_info)) server_info)
        (rts_attr (connect_params params (prepared server_info)) client_info)
        client_info
        server_info
create_context-linked_example =
    create_context-linked (machine client_info (text server_info))
      (machine server_info (text client_info)) params params (prepared client_info)
      (prepared server_info) client-Side server-Side (refl, refl) (refl, refl)

abbrev regions : List Region
regions = (2097152, 77) ∷ (4194304, 78) ∷ []

pub repeat : ℕ → List ℕ
repeat zero = []
repeat (suc n) = 0 ∷ repeat n

pub length-repeat : (n : ℕ) → length (repeat n) ≡ n
unfolding repeat
length-repeat zero = refl
length-repeat (suc n) = ap suc (length-repeat n)

pub unset : ℕ → List Region
unset zero = []
unset (suc n) = (0, 0) ∷ unset n

pub length-unset : (n : ℕ) → length (unset n) ≡ n
unfolding unset
length-unset zero = refl
length-unset (suc n) = ap suc (length-unset n)

start_remote-slices_text_example :
    (sent : List ℕ) × (slices_text (repeat 51) regions ≡ ok sent)
    × (length sent ≡ 50)
    × (start_remote unset (repeat 26) (sent ++ (0 ∷ [])) 3 (length sent) ≡ ok (4, regions))
start_remote-slices_text_example =
    start_remote-slices_text regions (repeat 51) (repeat 26) [] unset 3
      ((omega arith, omega arith), ((omega arith, omega arith), tt)) (length-repeat 51)
      (length-repeat 26) length-unset

malloc-free_example :
    ((malloc_huge_pages (λ n. none) (λ n. some 4096) 5 [] ≡ (none, []))
      × (◌≡◌ {A = Option ℕ} none none)
      × (◌≡◌ {A = Option ℕ} (some 4096) none))
    ⊎ ((a : Area) × (malloc_huge_pages (λ n. none) (λ n. some 4096) 5 []
          ≡ (some (a.base + huge_page_size), a ∷ []))
        × (huge_page_size + 5 ≤ a.len)
        × (free_huge_pages (some (a.base + huge_page_size)) (a ∷ []) ≡ ok []))
malloc-free_example = malloc-free (λ n. none) (λ n. some 4096) 5 [] (omega arith)

abbrev buffer : ℕ → Mem
buffer n = record { buf = n; size = 32768; lkey = 4; rkey = 5 }

abbrev buffers : Buffers
buffers = record {
  recv_nums = 2;
  gap = 32768;
  recv_index = 0;
  posted_recv = 0;
  recv_mem = some (buffer 0 ∷ buffer 32768 ∷ []);
  rbuf = some 2097152;
  sbuf = none;
  send_mem = none;
  slices = 0;
  rw_mem = none;
  ctx_rw = none;
  qbuf = none;
  rkeys = none;
  raddrs = none;
  rwbuf = none;
  areas = [];
}

abbrev room_for_all : List Wr → Wr → Bool
room_for_all rq w = true

post_recv_lem_example :
    (post_recv room_for_all 11 buffers 3 []
      ≡ ok (
        pos 0,
        record buffers { posted_recv = 3 },
        recv_request (buffer 0) ∷ recv_request (buffer 32768) ∷ recv_request (buffer 0) ∷ [],
      ))
    ⊎ ((k : ℕ) × (k < at_most 3)
        × (post_recv room_for_all 11 buffers 3 []
            ≡ ok (pos 12, buffers, map recv_request (turns (buffer 0 ∷ buffer 32768 ∷ []) 0 k))))
post_recv_lem_example =
    post_recv_lem room_for_all 11 buffers (buffer 0 ∷ buffer 32768 ∷ []) 3 [] (omega arith) refl
      refl
