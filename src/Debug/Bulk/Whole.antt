-- ===== src/Debug/Bulk/Whole.antt =====
-- A run of `bulk` in which nothing fails.
use mathlib.Core.List.{append_assoc, append-nil}
use native.Mathlib.Nat.{mod-lt}
use workd.Prelude.{
  ℕ, zero, suc, ◌+◌, ◌%◌, ◌≤◌, ◌<◌, ◌≡◌, refl, ap, ◌∙◌, Option, none, some, Bool, true, false, ◌&&◌,
  List, [], ◌∷◌, ◌++◌, ◌==◌, leb, length, length-append, get_elem?, All, if◌then◌else◌, arith,
  ne_==, ==_iff,
}
use workd.Prelude.Int.{ℤ, pos, minus_one, is_zero}
use workd.Prelude.Outcome.{Outcome, ok, fault, ◌>>=◌}
use workd.Debug.Verbs.{
  Registration, mr_recorded, Mem, op_rdma_write, Wr, Wc, Poll, Queues, rdma_post_send,
  rdma_dereg_mr,
}
use workd.Debug.Verbs.Laws.{idle, rdma_query_cq-sent}
use workd.Debug.Session.{Session, rdma}
use workd.Debug.Bulk.{num_regions, write_all, await, dereg_all, bulk}
use workd.Debug.Bulk.Regions.{Tile, register_from-Tile}

-- A slice of the peer, as `raddrs` and `rkeys` have it.
abbrev pub Remote : Type 0
Remote = ℕ × ℕ

-- rdma_post_send takes an address of 0 with a key of 0 for none.
abbrev pub Named : Remote → Type 0
Named r = (r.1 == 0 && r.0 == 0) ≡ false

-- The write of a region to a slice.
abbrev pub write_request : Mem → Remote → Wr
write_request m r = record {
  wr_id = 233;
  addr = m.buf;
  length = m.size % 4294967296;
  lkey = m.lkey;
  opcode = op_rdma_write;
  remote_addr = r.0;
  rkey = r.1;
}

unfoldable pub remote_at : List Remote → ℕ → Remote
remote_at rs i = elim (get_elem? rs i) [ none ↦ (0, 0) | some r ↦ r ]

-- Regions go to the slices from the `i`th on, round and round.
abbrev pub writes : List Remote → ℕ → ℕ → List Mem → List Wr
writes rs slices i [] = []
writes rs slices i (m ∷ ms) =
    write_request m (remote_at rs i) ∷ writes rs slices ((i + 1) % slices) ms

-- The slice after `n` more.
abbrev pub turned : ℕ → ℕ → ℕ → ℕ
turned slices i zero = i
turned slices i (suc n) = turned slices ((i + 1) % slices) n

-- Completions as they come, in polls that bring some, each after a number of empty ones.
abbrev pub Batch : Type 0
Batch = ℕ × Wc × List Wc

abbrev pub batches : List Batch → List Poll → List Poll
batches [] ps = ps
batches ((n, c, cs) ∷ bs) ps = idle n (some (c ∷ cs) ∷ batches bs ps)

abbrev pub total : List Batch → ℕ
total [] = 0
total ((n, c, cs) ∷ bs) = suc (length cs) + total bs

abbrev pub Good : Batch → Type 0
Good b = All (λ w. w.success ≡ true) (b.1 ∷ b.2)

get_elem?-All :
    (P : Remote → Type 0) (rs : List Remote) (i : ℕ)
    → All P rs
    → i < length rs
    → (r : Remote) × (get_elem? rs i ≡ some r) × P r
get_elem?-All P [] i h l = absurd (omega arith)
get_elem?-All P (r ∷ rs) zero h l = (r, refl, h.0)
get_elem?-All P (r ∷ rs) (suc i) h l = get_elem?-All P rs i h.1 (omega arith)

await-batches :
    (bs : List Batch) (fuel : ℕ) (q : Queues) (ack num : ℕ) (ps : List Poll)
    → All Good bs
    → q.send_cq ≡ batches bs ps
    → ack + total bs ≡ num
    → length bs < fuel
    → await fuel q ack num ≡ ok (pos 0, record q { send_cq = ps })
unfolding await
await-batches bs zero q ack num ps good came e h = absurd (omega (arith, h))
await-batches [] (suc fuel) q ack num ps good came e h =
    rw ((==_iff ack num).1 (omega (arith, e)), await)
      (ap (λ t. ok (pos 0, record q { send_cq = t })) came)
await-batches ((n, c, cs) ∷ bs) (suc fuel) q ack num ps good came e h =
    rw
      (
        ne_== ack num (λ p. absurd (omega (arith, e, p))),
        rdma_query_cq-sent n c cs q (batches bs ps) good.0 came,
        await,
      )
      (await-batches bs fuel (record q { send_cq = batches bs ps }) (ack + suc (length cs)) num ps
        good.1 refl (omega (arith, e)) (omega (arith, h)))

dereg_all_lem :
    (dereg : Mem → Bool) (ms : List Mem) → ((m : Mem) → dereg m ≡ true) → dereg_all dereg ms ≡ pos 0
unfolding dereg_all rdma_dereg_mr
dereg_all_lem dereg [] h = refl
dereg_all_lem dereg (m ∷ ms) h = rw (h m, dereg_all) (dereg_all_lem dereg ms h)

module _ (takes : List Wr → Wr → Bool) (capacity : ℕ) (s : Session)
    (takes_all : (q : List Wr) (r : Wr) → length q < capacity → takes q r ≡ true)
    (named : All Named s.remotes) (some_slice : 0 < s.slices)
    (enough : s.slices ≤ length s.remotes) where
  abbrev at : ℕ → List Wr → Session
  at i q = record s { rdma_index = i; sq = q }

  rdma_lem :
      (i : ℕ) (q : List Wr) (m : Mem)
      → i < s.slices
      → length q < capacity
      → rdma takes (at i q) m
        ≡ ok (pos 0, at ((i + 1) % s.slices) (q ++ write_request m (remote_at s.remotes i) ∷ []))
  unfolding rdma rdma_post_send remote_at
  rdma_lem i q m h room =
      let (r, found, name) = get_elem?-All Named s.remotes i named (omega (arith, h, enough)) in
      let there : remote_at s.remotes i ≡ r = rw (found, remote_at) refl in
      rw there (
        rw (found, ne_== s.slices 0 (omega (arith, some_slice)), name, takes_all q _ room, rdma)
          refl)

  write_all_lem :
      (ms : List Mem) (i : ℕ) (q : List Wr)
      → i < s.slices
      → length q + length ms ≤ capacity
      → write_all takes (at i q) ms
        ≡ ok (pos 0, at (turned s.slices i (length ms)) (q ++ writes s.remotes s.slices i ms))
  unfolding write_all
  write_all_lem [] i q h room = rw append-nil refl
  write_all_lem (m ∷ ms) i q h room =
      rw (rdma_lem i q m h (omega (arith, room)), write_all)
        (write_all_lem ms ((i + 1) % s.slices) (q ++ write_request m (remote_at s.remotes i) ∷ [])
            (mod-lt (i + 1) some_slice)
            (omega (arith, length-append q (write_request m (remote_at s.remotes i) ∷ []), room))
          ∙ simp append_assoc)

-- What `bulk` has done: the regions tile the buffer, and their writes, in their order, stand
-- behind the requests from before.
pub record Done (s : Session) (iptr size : ℕ) (ps : List Poll) (o : Outcome (ℤ × Session))
    : Type 0 where
  pub mems : List Mem
  pub tiles : Tile s.rdma_gap iptr size 0 mems
  pub count : length mems ≡ num_regions s.rdma_gap size
  pub returns :
      o
      ≡ ok (
        pos 0,
        record s {
          rdma_index = turned s.slices s.rdma_index (length mems);
          sq = s.sq ++ writes s.remotes s.slices s.rdma_index mems;
          queues = record s.queues { send_cq = ps };
        },
      )

leb_eq : (a b : ℕ) → a ≡ b → leb a b ≡ true
leb_eq a b h = ground arith

module _ (key : ℕ → ℕ → ℕ × ℕ) (reg : ℕ → ℕ → Registration)
    (registers : (a l : ℕ) → reg a l ≡ mr_recorded (key a l)) (dereg : Mem → Bool)
    (dereg_each : (m : Mem) → dereg m ≡ true) (takes : List Wr → Wr → Bool) (capacity : ℕ)
    (takes_all : (q : List Wr) (r : Wr) → length q < capacity → takes q r ≡ true) where
  module _ (fuel : ℕ) (s : Session) (num : ℕ) (bulk_mems : List Mem) where
    -- What follows the completions, and what follows the writes.
    after_await : Session → ℤ × Queues → Outcome (ℤ × Session)
    after_await s' y =
        ok
          (if is_zero y.0 then dereg_all dereg bulk_mems else minus_one, record s' { queues = y.1 })

    after_writes : ℤ × Session → Outcome (ℤ × Session)
    after_writes x =
        if is_zero x.0
        then (await fuel x.1.queues 0 num >>= after_await x.1)
        else ok (minus_one, x.1)

    from_writes_lem :
        (bs : List Batch) (ps : List Poll)
        → All Named s.remotes
        → 0 < s.slices
        → s.slices ≤ length s.remotes
        → s.rdma_index < s.slices
        → All Good bs
        → s.queues.send_cq ≡ batches bs ps
        → total bs ≡ num
        → length bs < fuel
        → length s.sq + length bulk_mems ≤ capacity
        → (write_all takes s bulk_mems >>= after_writes)
          ≡ ok (
            pos 0,
            record s {
              rdma_index = turned s.slices s.rdma_index (length bulk_mems);
              sq = s.sq ++ writes s.remotes s.slices s.rdma_index bulk_mems;
              queues = record s.queues { send_cq = ps };
            },
          )
    unfolding after_writes after_await
    from_writes_lem bs ps named some_slice enough in_range good came counted g room =
        ap (λ o. o >>= after_writes)
          (write_all_lem takes capacity s takes_all named some_slice enough bulk_mems s.rdma_index
            s.sq in_range room)
        ∙ ap (λ o. o >>= after_await written)
            (await-batches bs fuel s.queues 0 num ps good came (omega (arith, counted)) g)
        ∙ ap (λ r. ok (r, record written { queues = record s.queues { send_cq = ps } }))
            (dereg_all_lem dereg bulk_mems dereg_each)
      where
        written : Session
        written = record s {
          rdma_index = turned s.slices s.rdma_index (length bulk_mems);
          sq = s.sq ++ writes s.remotes s.slices s.rdma_index bulk_mems;
        }

  -- `bulk` from its regions on.
  from_regions : ℕ → Session → ℕ → Outcome (Option (List Mem)) → Outcome (ℤ × Session)
  from_regions fuel s num o = o >>= λ mems. elim mems [
    | none ↦ ok (minus_one, s)
    | some bulk_mems ↦
        if leb (length bulk_mems) num
        then (write_all takes s bulk_mems >>= after_writes fuel s num bulk_mems)
        else fault
  ]

  -- `bulk` writes the whole buffer to the peer: where every region registers, with memory
  -- for its record, and is given back, the queue takes as many requests as it has been given and one for each region more, every slice of the peer has an address or a key and there are as
  -- many as `slices` says, one at least, `rdma_index` is that of a slice, the gap is at least 1, the
  -- completions that come, in any polls, are all successful and as many as the buffer needs regions
  -- (and the fuel exceeds the buffer's bytes and the polls), `bulk` returns 0; it has posted one
  -- write for each of the regions, which tile the buffer in order, none longer than the gap, to the
  -- peer's slices in turn from the one of `rdma_index` on and again from the first behind the last,
  -- and `rdma_index` is the next one's.
  pub bulk_lem :
      (fuel : ℕ) (s : Session) (iptr size : ℕ) (bs : List Batch) (ps : List Poll)
      → All Named s.remotes
      → 0 < s.slices
      → s.slices ≤ length s.remotes
      → s.rdma_index < s.slices
      → 0 < s.rdma_gap
      → All Good bs
      → s.queues.send_cq ≡ batches bs ps
      → total bs ≡ num_regions s.rdma_gap size
      → size < fuel
      → length bs < fuel
      → length s.sq + num_regions s.rdma_gap size ≤ capacity
      → Done s iptr size ps (bulk reg dereg takes fuel s iptr size)
  unfolding bulk from_regions after_writes after_await
  bulk_lem fuel s iptr size bs ps named some_slice enough in_range big good came counted f g room =
      let (mems, e, tiles, count) =
        register_from-Tile key reg registers s.rdma_gap iptr size big fuel f in
      record {
        mems = mems;
        tiles = tiles;
        count = count;
        returns =
            rw (ne_== s.rdma_gap 0 (omega (arith, big)), bulk)
              (ap (from_regions fuel s (num_regions s.rdma_gap size)) e
                ∙ rw (leb_eq (length mems) (num_regions s.rdma_gap size) count) (
                    from_writes_lem fuel s (num_regions s.rdma_gap size) mems bs ps named some_slice
                      enough in_range good came counted g (omega (arith, room, count))));
      }
