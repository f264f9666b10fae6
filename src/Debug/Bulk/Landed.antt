-- ===== src/Debug/Bulk/Landed.antt =====
-- Where the writes of `bulk` land, with the slices that the peer has announced.
use mathlib.Core.Path.{subst}
use workd.Prelude.{
  ℕ, zero, suc, ◌+◌, ◌*◌, ◌%◌, ◌≤◌, ◌<◌, ◌≡◌, refl, sym, ap, ◌∙◌, some, Bool, true, List, [], ◌∷◌,
  ◌++◌, map, length, length-map, get_elem?, All, arith,
}
use workd.Prelude.Int.{pos}
use workd.Prelude.Outcome.{ok}
use workd.Debug.Verbs.{Registration, mr_recorded, Mem, op_rdma_write, Wr, Poll}
use workd.Debug.HugePages.{huge_page_size}
use workd.Debug.Session.{Session}
use workd.Debug.Bulk.{num_regions, bulk}
use workd.Debug.Bulk.Regions.{Tile}
use workd.Debug.Bulk.Whole.{
  Remote, Named, remote_at, writes, turned, Batch, batches, total, Good, bulk_lem,
}
use workd.Debug.Door.{slice, region}
use workd.Debug.Door.Announced.{Keys, slice_at, slices, length-slices, own_slices}

-- Writes of the bytes from `cursor` to `size` of the buffer at `iptr`, one behind the other, the
-- first into the `i`th of the peer's 512 slices, the next into the next and again into the first
-- behind the last, each under the key of its slice and no longer than it.
abbrev pub Delivered : Keys → ℕ → ℕ → ℕ → ℕ → ℕ → List Wr → Type 0
Delivered key base iptr size cursor i [] = cursor ≡ size
Delivered key base iptr size cursor i (r ∷ rs) =
    (r.addr ≡ iptr + cursor)
    × (0 < r.length)
    × (r.length ≤ slice)
    × (r.opcode ≡ op_rdma_write)
    × (r.remote_addr ≡ base + huge_page_size + i * slice)
    × (r.rkey ≡ (key r.remote_addr slice).1)
    × Delivered key base iptr size (cursor + r.length) ((i + 1) % 512) rs

get_elem?-slices :
    (key : Keys) (ptr n cur i : ℕ)
    → i < n
    → get_elem? (map region (slices key ptr n cur)) i
      ≡ some (region (slice_at key (ptr + (cur + i * slice))))
unfolding slices
get_elem?-slices key ptr zero cur i h = absurd (omega arith)
get_elem?-slices key ptr (suc n) cur zero h =
    ap (λ a. some (region (slice_at key (ptr + a))))
      (let e : cur ≡ cur + 0 * slice = omega arith in e)
get_elem?-slices key ptr (suc n) cur (suc i) h =
    get_elem?-slices key ptr n (cur + slice) i (omega arith)
    ∙ ap (λ a. some (region (slice_at key (ptr + a))))
        (let e : cur + slice + i * slice ≡ cur + suc i * slice = omega arith in e)

slices-Named :
    (key : Keys) (ptr n cur : ℕ) → 0 < ptr → All Named (map region (slices key ptr n cur))
unfolding slices
slices-Named key ptr zero cur h = tt
slices-Named key ptr (suc n) cur h = (ground (arith, h), slices-Named key ptr n (cur + slice) h)

own-get :
    (key : Keys) (base i : ℕ)
    → i < 512
    → get_elem? (map region (own_slices key base)) i
      ≡ some (region (slice_at key (base + huge_page_size + (0 + i * slice))))
unfolding own_slices
own-get key base i h = get_elem?-slices key (base + huge_page_size) 512 0 i h

own-Named : (key : Keys) (base : ℕ) → All Named (map region (own_slices key base))
unfolding own_slices
own-Named key base = slices-Named key (base + huge_page_size) 512 0 (omega arith)

length-own : (key : Keys) (base : ℕ) → length (map region (own_slices key base)) ≡ 512
unfolding own_slices
length-own key base =
    length-map (slices key (base + huge_page_size) 512 0) region
    ∙ length-slices key (base + huge_page_size) 512 0

own-remote_at :
    (key : Keys) (base i : ℕ)
    → i < 512
    → remote_at (map region (own_slices key base)) i
      ≡ region (slice_at key (base + huge_page_size + i * slice))
unfolding remote_at
own-remote_at key base i h =
    rw (own-get key base i h, remote_at)
      (ap (λ a. region (slice_at key a))
        (let e : base + huge_page_size + (0 + i * slice) ≡ base + huge_page_size + i * slice =
            omega arith in
          e))

writes-Delivered :
    (key : Keys) (base iptr size cursor i : ℕ) (ms : List Mem)
    → i < 512
    → Tile slice iptr size cursor ms
    → Delivered key base iptr size cursor i (writes (map region (own_slices key base)) 512 i ms)
writes-Delivered key base iptr size cursor i [] h t = t
writes-Delivered key base iptr size cursor i (m ∷ ms) h t =
    let there = own-remote_at key base i h in
    let whole : m.size % 4294967296 ≡ m.size = omega (arith, t.2) in
    (
      t.0,
      omega (arith, t.1, t.2),
      omega (arith, t.2),
      refl,
      ap (λ r. r.0) there,
      ap (λ r. r.1) there ∙ ap (λ a. (key a slice).1) (sym (ap (λ r. r.0) there)),
      subst
          (λ n.
            Delivered key base iptr size (cursor + n) ((i + 1) % 512)
              (writes (map region (own_slices key base)) 512 ((i + 1) % 512) ms))
          (sym whole)
          (writes-Delivered key base iptr size (cursor + m.size) ((i + 1) % 512) ms (omega arith)
            t.3),
    )

length-writes :
    (rs : List Remote) (slices i : ℕ) (ms : List Mem) → length (writes rs slices i ms) ≡ length ms
length-writes rs slices i [] = refl
length-writes rs slices i (m ∷ ms) = ap suc (length-writes rs slices ((i + 1) % slices) ms)

turned_lem : (i n : ℕ) → i < 512 → turned 512 i n ≡ (i + n) % 512
turned_lem i zero h = omega (arith, h)
turned_lem i (suc n) h = turned_lem ((i + 1) % 512) n (omega arith) ∙ omega arith

module _ (key : Keys) (reg : ℕ → ℕ → Registration)
    (registers : (a l : ℕ) → reg a l ≡ mr_recorded (key a l)) (dereg : Mem → Bool)
    (dereg_each : (m : Mem) → dereg m ≡ true) (takes : List Wr → Wr → Bool) (capacity : ℕ)
    (takes_all : (q : List Wr) (r : Wr) → length q < capacity → takes q r ≡ true) where
  -- `bulk` brings the whole buffer into the slices that the peer has announced: for a session
  -- whose 512 remote slices are those that start_rw of the peer, with its keys and its mapping at
  -- `base`, has registered, whose gap is the length of a slice and whose `rdma_index` is below 512,
  -- where every region registers, with memory for its record, and is given back, the queue takes as
  -- many requests as it has been given and one for each region more, and the completions that come, in any polls, are all successful and as many as the buffer needs
  -- regions (and the fuel exceeds the buffer's bytes and the polls), `bulk` returns 0. Behind the
  -- requests from before it has then posted one write for each region; the writes take the
  -- buffer's bytes in order, each of them once, write to the peer's slices in turn, from that of
  -- `rdma_index` on, under the key that the peer got for the slice, and end within the slice;
  -- `rdma_index` is the slice behind the last.
  pub bulk-Delivered :
      (peer : Keys) (base fuel : ℕ) (s : Session) (iptr size : ℕ) (bs : List Batch) (ps : List Poll)
      → s.remotes ≡ map region (own_slices peer base)
      → s.slices ≡ 512
      → s.rdma_gap ≡ slice
      → s.rdma_index < 512
      → All Good bs
      → s.queues.send_cq ≡ batches bs ps
      → total bs ≡ num_regions slice size
      → size < fuel
      → length bs < fuel
      → length s.sq + num_regions slice size ≤ capacity
      → (reqs : List Wr) × (length reqs ≡ num_regions slice size)
        × Delivered peer base iptr size 0 s.rdma_index reqs
        × (bulk reg dereg takes fuel s iptr size
            ≡ ok (
              pos 0,
              record s {
                rdma_index = (s.rdma_index + length reqs) % 512;
                sq = s.sq ++ reqs;
                queues = record s.queues { send_cq = ps };
              },
            ))
  bulk-Delivered peer base fuel s iptr size bs ps theirs many gap in_range good came counted f g
        room =
      let done =
        bulk_lem key reg registers dereg dereg_each takes capacity takes_all fuel s iptr size bs ps
          (subst (All Named) (sym theirs) (own-Named peer base)) (omega (arith, many))
          (omega (arith, many, length-own peer base, ap length theirs))
          (omega (arith, many, in_range)) (omega (arith, gap)) good came
          (counted ∙ ap (λ n. num_regions n size) (sym gap)) f g
          (omega (arith, room, ap (λ n. num_regions n size) gap)) in
      let posted : List Wr = writes s.remotes s.slices s.rdma_index done.mems in
      let n_posted : length posted ≡ length done.mems =
        length-writes s.remotes s.slices s.rdma_index done.mems in
      let same : writes (map region (own_slices peer base)) 512 s.rdma_index done.mems ≡ posted =
        ap (λ rs. writes rs 512 s.rdma_index done.mems) (sym theirs)
        ∙ ap (λ k. writes s.remotes k s.rdma_index done.mems) (sym many) in
      let index : turned s.slices s.rdma_index (length done.mems)
          ≡ (s.rdma_index + length posted) % 512 =
        ap (λ k. turned k s.rdma_index (length done.mems)) many
        ∙ turned_lem s.rdma_index (length done.mems) in_range
        ∙ ap (λ n. (s.rdma_index + n) % 512) (sym n_posted) in
      (
        posted,
        n_posted ∙ done.count ∙ ap (λ n. num_regions n size) gap,
        subst (Delivered peer base iptr size 0 s.rdma_index) same (
            writes-Delivered peer base iptr size 0 s.rdma_index done.mems in_range
              (subst (λ n. Tile n iptr size 0 done.mems) gap done.tiles)),
        done.returns
            ∙ ap
                (λ i. ok (
                  pos 0,
                  record s {
                    rdma_index = i;
                    sq = s.sq ++ posted;
                    queues = record s.queues { send_cq = ps };
                  },
                ))
                index,
      )
