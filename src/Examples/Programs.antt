-- ===== src/Examples/Programs.antt =====
-- The theorems about the programs of debug/ at concrete inputs.
use workd.Prelude.{
  ℕ, ◌%◌, ◌≡◌, ◌<◌, ◌↔◌, ◌⊎◌, refl, Option, none, some, Bool, true, false, List, [], ◌∷◌, replicate,
  drop, arith,
}
use workd.Prelude.Int.{pos}
use workd.Prelude.Outcome.{ok, fault}
use workd.Debug.Verbs.{Registration, mr_recorded, Mem, Wr, Wc}
use workd.Debug.Door.{Door}
use workd.Debug.Programs.Pattern.{fill, check}
use workd.Debug.Programs.Pattern.Laws.{check-fill}
use workd.Debug.Programs.Transfer.Sent.{acks}
use workd.Debug.Programs.Collect.{rw_size, collect}
use workd.Debug.Programs.Collect.Laws.{collect_lem}
use workd.Debug.Programs.Announce.{tg, reg_memory}
use workd.Debug.Programs.Announce.Laws.{Announced, reg_memory_lem}
use workd.Debug.Devices.{Address, open_server}
use workd.Debug.Devices.Laws.{Owns, open_server-Owns}
use workd.Examples.Setup.{repeat, length-repeat}

abbrev got : List ℕ
got = 65 ∷ 65 ∷ 65 ∷ 65 ∷ 66 ∷ 66 ∷ 66 ∷ 67 ∷ []

check-fill_example :
    (ts : List ℕ) × (fill 8 (replicate 8 0) ≡ ok ts) × ((check 8 got ≡ ok true) ↔ (got ≡ ts))
check-fill_example = check-fill 2 (replicate 8 0) got refl refl

abbrev pub send_mem : Mem
send_mem = record { buf = 4096; size = 4; lkey = 4; rkey = 5 }

abbrev pub wc : Wc
wc = record { wr_id = 0; byte_len = 0; success = true }

abbrev pub acked : List (ℕ × Wc)
acked = (0, wc) ∷ (2, wc) ∷ []

abbrev pub door : Door
door = record {
  buffers = record {
    recv_nums = 1024;
    gap = 32768;
    recv_index = 0;
    posted_recv = 0;
    recv_mem = none;
    rbuf = none;
    sbuf = some 4096;
    send_mem = some send_mem;
    slices = 0;
    rw_mem = none;
    ctx_rw = none;
    qbuf = none;
    rkeys = none;
    raddrs = none;
    rwbuf = none;
    areas = [];
  };
  sbuf_mem = 0 ∷ 0 ∷ 0 ∷ 0 ∷ [];
  remotes = [];
  rdma_index = 0;
  rdma_gap = 2097152;
  info = record { addr = 0; rkey = 0 };
  queues = record { send_cq = acks acked []; recv_cq = [] };
  sq = [];
  rq = [];
}

abbrev pub takes : List Wr → Wr → Bool
takes sq w = true

abbrev pub letters : List ℕ
letters = 65 ∷ 66 ∷ 67 ∷ 68 ∷ 69 ∷ 70 ∷ []

collect_lem_example :
    collect (some 0 ∷ some 4 ∷ some 4 ∷ some 4 ∷ []) (7 ∷ 8 ∷ 9 ∷ []) (repeat rw_size)
    ≡ ok (pos 3, 7 ∷ 8 ∷ 9 ∷ drop 3 (repeat rw_size))
collect_lem_example =
    collect_lem (some 0 ∷ some 4 ∷ some 4 ∷ some 4 ∷ []) (7 ∷ 8 ∷ 9 ∷ []) (repeat rw_size)
      ((λ e. cc), ((λ e. cc), ((λ e. cc), ((λ e. cc), tt)))) (length-repeat rw_size) (omega arith)

abbrev pub key : ℕ → ℕ → ℕ × ℕ
key a l = (1, 77)

abbrev pub reg : ℕ → ℕ → Registration
reg a l = mr_recorded (key a l)

-- Two regions of 1 GiB.
reg_memory_lem_example :
    ((tg % 1073741824 ≡ 0)
      × Announced 4096 1073741824 2 (reg_memory reg 3 2 4096 1073741824 (replicate 51 0)))
    ⊎ ((0 < tg % 1073741824) × (reg_memory reg 3 2 4096 1073741824 (replicate 51 0) ≡ fault))
reg_memory_lem_example =
    reg_memory_lem key reg 4096 1073741824 3 (replicate 51 0) (λ a l. refl) (λ a l. omega arith)
      (omega arith) (omega arith) refl (omega arith)

abbrev address : Option ℕ → Bool → Address
address socket binds = record { socket = socket; binds = binds }

abbrev addresses : List Address
addresses = address none true ∷ address (some 5) false ∷ address (some 6) true ∷ []

open_server-Owns_example : Owns addresses (3 ∷ []) (open_server true (some addresses) (3 ∷ []))
open_server-Owns_example = open_server-Owns true (some addresses) (3 ∷ [])
