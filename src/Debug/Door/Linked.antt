-- ===== src/Debug/Door/Linked.antt =====
-- The opening of two sessions from `init` on.
use workd.Prelude.{
  ℕ, ◌+◌, ◌*◌, ◌^◌, ◌≤◌, ◌<◌, ◌≡◌, ◌≢◌, refl, ap, ◌∙◌, some, true, List, ◌∷◌, ◌++◌, map, length,
  arith,
}
use workd.Prelude.Int.{ℤ, pos}
use workd.Prelude.Outcome.{Outcome, ok, ◌>>=◌}
use workd.Debug.Verbs.{mr_recorded, Wr, Wc, Poll, Queues}
use workd.Debug.Verbs.Laws.{idle}
use workd.Debug.HugePages.{huge_page_size, real_size}
use workd.Debug.Buffers.{Buffers, post_recv}
use workd.Debug.Buffers.Posting.{recv_request, turns, post_recv_all}
use workd.Debug.Buffers.Registering.{
  gap_at, own_buffers, length-own_buffers, registered, reg_mem_lem,
}
use workd.Debug.Slices.Laws.{body}
use workd.Debug.Door.{Door, World, rwbuf_size, region, start_rw, set_up, door, init}
use workd.Debug.Door.Announced.{Keys, own_slices, length-text}
use workd.Debug.Door.Heard.{Carries}
use workd.Debug.Door.Paired.{on_wire, Side, Opened, from_server, from_client, door-Opened}

-- What `init` needs on one side: memory at `rbase` for receiving, `sbase` for sending and `base`
-- for the slices, every region registered under 32-bit keys, with memory for its record, a send queue that takes `capacity`
-- requests and has been given fewer, a receive queue that takes all, one
-- byte behind `data` and `tmp` that may be written, and a completion on each queue after empty
-- polls.
pub record CanOpen (w : World) (d : Door) : Type 0 where
  pub key : Keys
  pub rbase : ℕ
  pub sbase : ℕ
  pub base : ℕ
  pub mapped_recv : w.supply.mmap (real_size (32768 * 1024)) ≡ some rbase
  pub mapped_send : w.supply.mmap (real_size 32768) ≡ some sbase
  pub mapped_slices : w.supply.mmap (real_size rwbuf_size) ≡ some base
  pub registers : (a l : ℕ) → w.supply.reg a l ≡ mr_recorded (key a l)
  pub keys_small : (a l : ℕ) → (key a l).1 < 2 ^ 32
  pub addresses_small : base + 2 * rwbuf_size ≤ 10 ^ 16
  pub has_array : w.supply.has_array ≡ true
  pub has_rw : w.has_rw ≡ true
  pub capacity : ℕ
  pub takes_all : (q : List Wr) (r : Wr) → length q < capacity → w.takes q r ≡ true
  pub free : length d.sq < capacity
  pub takes_recv_all : (q : List Wr) (r : Wr) → w.takes_recv q r ≡ true
  pub fresh_room : length w.fresh ≡ 32768
  pub array_room : length w.array ≡ 12801
  pub tmp_room : length w.tmp ≡ 26
  pub sized : (i : ℕ) → length (w.new_remotes i) ≡ i
  pub n : ℕ
  pub c : Wc
  pub cs : List Wc
  pub send_polls : List Poll
  pub completes : d.queues.send_cq ≡ idle n (some (c ∷ cs) ∷ send_polls)
  pub k : ℕ
  pub got : Wc
  pub gots : List Wc
  pub recv_polls : List Poll
  pub received : d.queues.recv_cq ≡ idle k (some (got ∷ gots) ∷ recv_polls)

-- What the queues bring after the opening.
abbrev pub remaining : {w : World} {d : Door} → CanOpen w d → Queues
remaining can = record { send_cq = can.send_polls; recv_cq = can.recv_polls }

module _ {w : World} {d : Door} (can : CanOpen w d) where
  abbrev with_regions : Buffers
  with_regions =
      registered (record d.buffers { recv_nums = 1024; gap = 32768 }) can.key can.rbase can.sbase

  -- In front of `door`: every receive buffer is posted, again and again, 16000 times in all.
  abbrev pub ready : Door
  ready = record d {
    buffers = record with_regions { posted_recv = d.buffers.posted_recv + (0 + 16000) };
    rq = d.rq ++ map recv_request (turns (own_buffers can.key can.rbase) 0 16000);
    rdma_index = 0;
    rdma_gap = 2097152;
    sbuf_mem = w.fresh;
  }

  posted :
      post_recv w.takes_recv w.refused with_regions 16000 d.rq ≡ ok (pos 0, ready.buffers, ready.rq)
  posted =
      post_recv_all w.takes_recv w.refused with_regions (own_buffers can.key can.rbase) 16000 d.rq
        (omega (arith, length-own_buffers can.key can.rbase))
        (omega (arith, length-own_buffers can.key can.rbase)) refl can.takes_recv_all

  pub set_up-ready : set_up w d ≡ ok ready
  unfolding set_up
  set_up-ready =
      ap (λ o. o >>= λ b. post_recv w.takes_recv w.refused b 16000 d.rq >>= posted_to)
        (reg_mem_lem w.supply can.key can.rbase can.sbase d.buffers can.registers can.has_array
          can.mapped_recv can.mapped_send)
      ∙ ap (λ o. o >>= posted_to) posted
    where
      posted_to : ℤ × Buffers × List Wr → Outcome Door
      posted_to x = ok (record d {
        buffers = x.1;
        rq = x.2;
        rdma_index = 0;
        rdma_gap = 2097152;
        sbuf_mem = w.fresh;
      })

  pub ready_side : Side w ready
  ready_side = record {
    key = can.key;
    base = can.base;
    n = can.n;
    m = gap_at can.key (can.sbase + huge_page_size);
    c = can.c;
    cs = can.cs;
    send_polls = can.send_polls;
    announces = record {
      mapped = can.mapped_slices;
      registers = can.registers;
      has_rw = can.has_rw;
      keys_small = can.keys_small;
      addresses_small = can.addresses_small;
      array_room = can.array_room;
      has_buffer = refl;
      buffer_room = omega (arith, can.fresh_room);
      took = can.takes_all d.sq _ can.free;
      completes = can.completes;
    };
    p = can.rbase + huge_page_size;
    has_rbuf = refl;
    tmp_room = can.tmp_room;
    sized = can.sized;
    k = can.k;
    got = can.got;
    gots = can.gots;
    recv_polls = can.recv_polls;
    received = can.received;
  }

-- What a server sends.
pub server_text :
    {w : World} {d : Door} (can : CanOpen w d)
    → on_wire (set_up w d >>= start_rw w) ≡ body (map region (own_slices can.key can.base))
unfolding ready_side
server_text {w} can =
    ap (λ o. on_wire (o >>= start_rw w)) (set_up-ready can) ∙ from_server (ready_side can)

-- It is of 25 bytes for each slice.
pub length-server_text :
    {w : World} {d : Door} (can : CanOpen w d)
    → length (body (map region (own_slices can.key can.base))) ≡ 12800
unfolding ready_side
length-server_text can = length-text (ready_side can).announces

module _ {wa wb : World} {a b : Door} (ca : CanOpen wa a) (cb : CanOpen wb b) (flag : ℕ)
    (client : flag ≢ 1)
    (to_client : Carries wb cb.got (on_wire (set_up wa a >>= start_rw wa))) where
  door_to_client : Carries wb cb.got (on_wire (start_rw wa (ready ca)))
  door_to_client = record {
    rest = to_client.rest;
    arrived =
        to_client.arrived
        ∙ ap (λ o. on_wire (o >>= start_rw wa) ++ (0 ∷ to_client.rest)) (set_up-ready ca);
    counted = to_client.counted ∙ ap (λ o. length (on_wire (o >>= start_rw wa))) (set_up-ready ca);
  }

  init-ready : init wb flag b ≡ door wb flag (ready cb)
  unfolding init
  init-ready = ap (λ o. o >>= door wb flag) (set_up-ready cb)

  -- What the client sends.
  pub client_text : on_wire (init wb flag b) ≡ body (map region (own_slices cb.key cb.base))
  unfolding ready_side
  client_text =
      ap on_wire init-ready ∙ from_client (ready_side ca) (ready_side cb) flag client door_to_client

module _ {wa wb : World} {a b : Door} (ca : CanOpen wa a) (cb : CanOpen wb b) (flag : ℕ)
    (client : flag ≢ 1) (to_client : Carries wb cb.got (on_wire (set_up wa a >>= start_rw wa)))
    (to_server : Carries wa ca.got (on_wire (init wb flag b))) where
  door_to_server : Carries wa ca.got (on_wire (door wb flag (ready cb)))
  door_to_server = record {
    rest = to_server.rest;
    arrived =
        to_server.arrived
        ∙ ap (λ o. on_wire o ++ (0 ∷ to_server.rest)) (init-ready ca cb flag client to_client);
    counted =
        to_server.counted ∙ ap (λ o. length (on_wire o)) (init-ready ca cb flag client to_client);
  }

  -- Two sessions that `init` sets up towards each other, one as a server and one with another
  -- `flag`: if both have memory, register every region at addresses of at most 16 digits under
  -- 32-bit keys, their queues take all receives and the request, and complete what was sent after any number of
  -- empty polls, one byte behind `data` and `tmp` may be written (CanOpen), and the connection
  -- carries what each sends last into the other's first receive buffer, then `init` returns on both
  -- sides. Each then has 16000 receives posted, for its 1024 receive buffers in turn, holds 512
  -- regions of 2 MiB that tile its memory of 1 GiB, and has stored the addresses and keys of the
  -- other's regions, in their order.
  pub init-Opened :
      ((o : Opened
          (ready ca)
          (remaining ca)
          ca.key
          ca.base
          (own_slices cb.key cb.base)
          (init wa 1 a))
        × (length (own_buffers ca.key ca.rbase) ≡ 1024)
        × (o.after.rq ≡ a.rq ++ map recv_request (turns (own_buffers ca.key ca.rbase) 0 16000)))
      × ((o : Opened
            (ready cb)
            (remaining cb)
            cb.key
            cb.base
            (own_slices ca.key ca.base)
            (init wb flag b))
          × (length (own_buffers cb.key cb.rbase) ≡ 1024)
          × (o.after.rq ≡ b.rq ++ map recv_request (turns (own_buffers cb.key cb.rbase) 0 16000)))
  unfolding init ready_side
  init-Opened =
      let (sa, sb) =
        door-Opened (ready_side ca) (ready_side cb) flag client
          (door_to_client ca cb flag client to_client) door_to_server in
      (
        (
          record {
            after = sa.after;
            opens = ap (λ o. o >>= door wa 1) (set_up-ready ca) ∙ sa.opens;
            own = sa.own;
            tiles = sa.tiles;
            count = sa.count;
            knows = sa.knows;
            kept = sa.kept;
            told = sa.told;
            sent_one = sa.sent_one;
            waits = sa.waits;
            buffer = sa.buffer;
            indexed = sa.indexed;
            sliced = sa.sliced;
          },
          length-own_buffers ca.key ca.rbase,
          sa.kept,
        ),
        (
          record {
            after = sb.after;
            opens = init-ready ca cb flag client to_client ∙ sb.opens;
            own = sb.own;
            tiles = sb.tiles;
            count = sb.count;
            knows = sb.knows;
            kept = sb.kept;
            told = sb.told;
            sent_one = sb.sent_one;
            waits = sb.waits;
            buffer = sb.buffer;
            indexed = sb.indexed;
            sliced = sb.sliced;
          },
          length-own_buffers cb.key cb.rbase,
          sb.kept,
        ),
      )
