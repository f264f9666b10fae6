-- ===== src/Debug/Door/Paired.antt =====
-- Two sessions that open towards each other.
use workd.Prelude.{
  ℕ, ◌+◌, ◌≡◌, ◌≢◌, refl, ap, ◌∙◌, some, List, [], ◌∷◌, ◌++◌, map, length, length-append,
  length-drop, take, drop, take-append_self, arith, ne_==,
}
use workd.Prelude.Outcome.{Outcome, ok, fault, spent, ◌>>=◌}
use workd.Debug.Verbs.{Mem, Wr, Wc, Poll, Queues}
use workd.Debug.Verbs.Laws.{idle}
use workd.Debug.HugePages.{huge_page_size}
use workd.Debug.Slices.{Region}
use workd.Debug.Slices.Laws.{body}
use workd.Debug.Bulk.Regions.{Tile}
use workd.Debug.Door.{Door, World, slice, rwbuf_size, region, start_rw, hear, door}
use workd.Debug.Door.Announced.{
  Keys, length-slices, slices-Tile, announcement, CanAnnounce, own_slices, own-Fits, length-text,
  announced, start_rw_lem,
}
use workd.Debug.Door.Heard.{Carries, heard, hear_lem}

-- The length of the request that was posted last.
abbrev pub last_length : List Wr → ℕ
last_length [] = 0
last_length (r ∷ []) = r.length
last_length (r ∷ rs) = last_length rs

-- The bytes that the request posted last carries, out of the send buffer.
abbrev pub on_wire : Outcome Door → List ℕ
on_wire (ok d) = take (last_length d.sq) d.sbuf_mem
on_wire fault = []
on_wire spent = []

last_length-append : (rs : List Wr) (r : Wr) → last_length (rs ++ r ∷ []) ≡ r.length
last_length-append [] r = refl
last_length-append (q ∷ []) r = refl
last_length-append (q ∷ p ∷ rs) r = last_length-append (p ∷ rs) r

-- One side: what it needs for its slices, a receive buffer, room for what it hears, and a
-- completion for it after `k` empty polls.
pub record Side (w : World) (d : Door) : Type 0 where
  pub key : Keys
  pub base : ℕ
  pub n : ℕ
  pub m : Mem
  pub c : Wc
  pub cs : List Wc
  pub send_polls : List Poll
  pub announces : CanAnnounce w d key base n m c cs send_polls
  pub p : ℕ
  pub has_rbuf : d.buffers.rbuf ≡ some p
  pub tmp_room : length w.tmp ≡ 26
  pub sized : (i : ℕ) → length (w.new_remotes i) ≡ i
  pub k : ℕ
  pub got : Wc
  pub gots : List Wc
  pub recv_polls : List Poll
  pub received : d.queues.recv_cq ≡ idle k (some (got ∷ gots) ∷ recv_polls)

-- The bytes that a side's `start_rw` leaves in its send buffer for its request.
on_wire-announced :
    (d : Door) (key : Keys) (base : ℕ) (m : Mem) (polls : List Poll)
    → length (body (map region (own_slices key base))) ≡ 12800
    → on_wire (ok (announced d key base m polls)) ≡ body (map region (own_slices key base))
on_wire-announced d key base m polls long =
    take-append_self (last_length (d.sq ++ announcement m (length text) ∷ [])) text
      (drop (length text) d.sbuf_mem)
      (last_length-append d.sq (announcement m (length text)) ∙ (omega (arith, long)))
  where
    text : List ℕ
    text = body (map region (own_slices key base))

-- After the other side's slices, `start_rw` finds what it found before.
still :
    {w : World} {d : Door} (s : Side w d) (rs : List Region)
    → CanAnnounce w (heard d rs s.recv_polls) s.key s.base s.n s.m s.c s.cs s.send_polls
still s rs = record {
  mapped = s.announces.mapped;
  registers = s.announces.registers;
  has_rw = s.announces.has_rw;
  keys_small = s.announces.keys_small;
  addresses_small = s.announces.addresses_small;
  array_room = s.announces.array_room;
  has_buffer = s.announces.has_buffer;
  buffer_room = s.announces.buffer_room;
  took = s.announces.took;
  completes = s.announces.completes;
}

-- What is stored at the end: the slices of both sides, each side's own tiling its memory; what the
-- queues still bring; and the members that others use.
pub record Opened (d : Door) (qs : Queues) (key : Keys) (base : ℕ) (peers : List Mem)
    (o : Outcome Door) : Type 0 where
  pub after : Door
  pub opens : o ≡ ok after
  pub own : after.buffers.rw_mem ≡ some (own_slices key base)
  pub tiles : Tile slice (base + huge_page_size) rwbuf_size 0 (own_slices key base)
  pub count : length (own_slices key base) ≡ 512
  pub knows : after.remotes ≡ map region peers
  pub kept : after.rq ≡ d.rq
  pub told : after.info ≡ d.info
  pub sent_one : length after.sq ≡ length d.sq + 1
  pub waits : after.queues ≡ qs
  pub buffer :
      (after.buffers.send_mem ≡ d.buffers.send_mem) × (length after.sbuf_mem ≡ length d.sbuf_mem)
  pub indexed :
      (after.buffers.recv_nums ≡ d.buffers.recv_nums)
      × (after.buffers.recv_index ≡ d.buffers.recv_index + 1)
  pub sliced :
      (after.buffers.slices ≡ 512)
      × (after.rdma_gap ≡ d.rdma_gap)
      × (after.rdma_index ≡ d.rdma_index)

-- What a side tells the other.
abbrev pub regions : {w : World} {d : Door} → Side w d → List Region
regions s = map region (own_slices s.key s.base)

-- What the queues bring after a side has opened.
abbrev pub left : {w : World} {d : Door} → Side w d → Queues
left s = record { send_cq = s.send_polls; recv_cq = s.recv_polls }

-- The text in the send buffer leaves its size.
length-stored :
    {w : World} {d : Door} (s : Side w d)
    → length (body (regions s) ++ drop (length (body (regions s))) d.sbuf_mem) ≡ length d.sbuf_mem
length-stored {d} s = omega (
  arith,
  length-append (body (regions s)) (drop (length (body (regions s))) d.sbuf_mem),
  length-drop (length (body (regions s))) d.sbuf_mem,
  length-text s.announces,
  s.announces.buffer_room,
)

own_tiles :
    (key : Keys) (base : ℕ) → Tile slice (base + huge_page_size) rwbuf_size 0 (own_slices key base)
unfolding own_slices
own_tiles key base = slices-Tile key (base + huge_page_size) rwbuf_size 512 0 (omega arith)

own_count : (key : Keys) (base : ℕ) → length (own_slices key base) ≡ 512
unfolding own_slices
own_count key base = length-slices key (base + huge_page_size) 512 0

pub from_server : {w : World} {d : Door} (s : Side w d) → on_wire (start_rw w d) ≡ body (regions s)
from_server {d} s =
    ap on_wire (start_rw_lem s.announces)
    ∙ on_wire-announced d s.key s.base s.m s.send_polls (length-text s.announces)

module _ {wa wb : World} {a b : Door} (sa : Side wa a) (sb : Side wb b) (flag : ℕ)
    (client : flag ≢ 1) (to_client : Carries wb sb.got (on_wire (start_rw wa a))) where
  client_hears : hear wb b ≡ ok (heard b (regions sa) sb.recv_polls)
  client_hears =
      hear_lem wb b sb.p sb.k sb.got sb.gots sb.recv_polls (regions sa) to_client.rest sb.received
        sb.has_rbuf (own-Fits sa.announces) sb.tmp_room sb.sized
        (to_client.arrived ∙ ap (λ t. t ++ (0 ∷ to_client.rest)) (from_server sa))
        (to_client.counted ∙ ap length (from_server sa))

  client_opens :
      door wb flag b
      ≡ ok (announced (heard b (regions sa) sb.recv_polls) sb.key sb.base sb.m sb.send_polls)
  unfolding door
  client_opens = rw (ne_== flag 1 client, client_hears, door) (start_rw_lem (still sb (regions sa)))

  pub from_client : on_wire (door wb flag b) ≡ body (regions sb)
  from_client =
      ap on_wire client_opens
      ∙ on_wire-announced (heard b (regions sa) sb.recv_polls) sb.key sb.base sb.m sb.send_polls
          (length-text sb.announces)

module _ {wa wb : World} {a b : Door} (sa : Side wa a) (sb : Side wb b) (flag : ℕ)
    (client : flag ≢ 1) (to_client : Carries wb sb.got (on_wire (start_rw wa a)))
    (to_server : Carries wa sa.got (on_wire (door wb flag b))) where
  abbrev server_told : Door
  server_told = announced a sa.key sa.base sa.m sa.send_polls

  server_opens : door wa 1 a ≡ ok (heard server_told (regions sb) sa.recv_polls)
  unfolding door
  server_opens =
      ap (λ o. o >>= hear wa) (start_rw_lem sa.announces)
      ∙ hear_lem wa server_told sa.p sa.k sa.got sa.gots sa.recv_polls (regions sb) to_server.rest
          sa.received sa.has_rbuf (own-Fits sb.announces) sa.tmp_room sa.sized
          (to_server.arrived
            ∙ ap (λ t. t ++ (0 ∷ to_server.rest)) (from_client sa sb flag client to_client))
          (to_server.counted ∙ ap length (from_client sa sb flag client to_client))

  -- Two sessions open towards each other: the server, which registers and sends its slices first,
  -- and the client, which waits for them first. If both have memory for 512 slices of 2 MiB, a
  -- send buffer of 12800 bytes at least, a receive buffer, addresses of at most 16 digits and
  -- 32-bit keys, one byte behind `data` and `tmp` that may be written, and completions after any
  -- number of empty polls, and the connection carries what each sends into the other's first
  -- receive buffer, then `door` returns on both sides; each side holds 512 regions that tile its
  -- memory of 1 GiB, and has stored the addresses and keys of the other's, in their order.
  pub door-Opened :
      Opened a (left sa) sa.key sa.base (own_slices sb.key sb.base) (door wa 1 a)
      × Opened b (left sb) sb.key sb.base (own_slices sa.key sa.base) (door wb flag b)
  door-Opened = (
    record {
      after = heard server_told (regions sb) sa.recv_polls;
      opens = server_opens;
      own = refl;
      tiles = own_tiles sa.key sa.base;
      count = own_count sa.key sa.base;
      knows = refl;
      kept = refl;
      told = refl;
      sent_one = length-append a.sq _;
      waits = refl;
      buffer = (refl, length-stored sa);
      indexed = (refl, refl);
      sliced = (refl, refl, refl);
    },
    record {
      after = announced (heard b (regions sa) sb.recv_polls) sb.key sb.base sb.m sb.send_polls;
      opens = client_opens sa sb flag client to_client;
      own = refl;
      tiles = own_tiles sb.key sb.base;
      count = own_count sb.key sb.base;
      knows = refl;
      kept = refl;
      told = refl;
      sent_one = length-append b.sq _;
      waits = refl;
      buffer = (refl, length-stored sb);
      indexed = (refl, refl);
      sliced = (refl, refl, refl);
    },
  )
