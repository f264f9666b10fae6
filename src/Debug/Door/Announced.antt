-- ===== src/Debug/Door/Announced.antt =====
-- What start_rw registers and sends.
use workd.Prelude.{
  ℕ, zero, suc, ◌+◌, ◌*◌, ◌%◌, ◌^◌, ◌≤◌, ◌<◌, ◌≡◌, refl, ap, ◌∙◌, some, Bool, true, List, [], ◌∷◌,
  ◌++◌, map, length, length-map, drop, All, arith, leb, lt→ltb, ge→ltb,
}
use workd.Prelude.Int.{ℤ, pos}
use workd.Prelude.Outcome.{Outcome, ok, ◌>>=◌}
use workd.Debug.Verbs.{
  Registration, mr_recorded, Mem, op_send, Wr, Wc, Poll, rdma_reg_mr, rdma_post_send, rdma_query_cq,
}
use workd.Debug.Verbs.Laws.{idle, rdma_query_cq-some_sent}
use workd.Debug.HugePages.{huge_page_size, real_size, mapped_area}
use workd.Debug.HugePages.Laws.{malloc-mapped}
use workd.Debug.Slices.{Region, slices_text}
use workd.Debug.Slices.Laws.{Fits, body, length-body, slices_text-body}
use workd.Debug.Bulk.Regions.{Tile}
use workd.Debug.Door.{
  Door, World, slice, rwbuf_size, register_slices, dereference, region, send_from, send_buffer,
  announce, with_slices, start_slices, start_rw,
}

abbrev pub Keys : Type 0
Keys = ℕ → ℕ → ℕ × ℕ

-- A region of a slice's length.
abbrev pub slice_at : Keys → ℕ → Mem
slice_at key ptr = record {
  buf = ptr;
  size = slice;
  lkey = (key ptr slice).0;
  rkey = (key ptr slice).1;
}

-- `n` slices one behind the other, from `cur` on.
unfoldable pub slices : Keys → ℕ → ℕ → ℕ → List Mem
slices key ptr zero cur = []
slices key ptr (suc n) cur = slice_at key (ptr + cur) ∷ slices key ptr n (cur + slice)

pub length-slices : (key : Keys) (ptr n cur : ℕ) → length (slices key ptr n cur) ≡ n
unfolding slices
length-slices key ptr zero cur = refl
length-slices key ptr (suc n) cur = ap suc (length-slices key ptr n (cur + slice))

slices-Fits :
    (key : Keys) (ptr n cur : ℕ)
    → ((a l : ℕ) → (key a l).1 < 2 ^ 32)
    → ptr + cur + n * slice ≤ 10 ^ 16
    → All Fits (map region (slices key ptr n cur))
unfolding slices
slices-Fits key ptr zero cur small room = tt
slices-Fits key ptr (suc n) cur small room = (
  (omega (arith, room), small (ptr + cur) slice),
  slices-Fits key ptr n (cur + slice) small (omega (arith, room)),
)

-- They tile the memory up to its end.
unfoldable pub slices-Tile :
    (key : Keys) (ptr size n cur : ℕ)
    → cur + n * slice ≡ size
    → Tile slice ptr size cur (slices key ptr n cur)
unfolding slices
slices-Tile key ptr size zero cur e = omega (arith, e)
slices-Tile key ptr size (suc n) cur e =
    (refl, omega arith, omega arith, slices-Tile key ptr size n (cur + slice) (omega (arith, e)))

register_slices_lem :
    (key : Keys) (reg : ℕ → ℕ → Registration) (ptr n cur fuel : ℕ)
    → ((a l : ℕ) → reg a l ≡ mr_recorded (key a l))
    → cur + n * slice ≡ rwbuf_size
    → n < fuel
    → register_slices reg ptr fuel cur ≡ ok (map some (slices key ptr n cur))
unfolding register_slices rdma_reg_mr slices
register_slices_lem key reg ptr n cur zero registers e h = absurd (omega (arith, h))
register_slices_lem key reg ptr zero cur (suc fuel) registers e h =
    rw (ge→ltb cur rwbuf_size (omega (arith, e)), register_slices) refl
register_slices_lem key reg ptr (suc n) cur (suc fuel) registers e h =
    rw
      (
        lt→ltb cur rwbuf_size (omega (arith, e)),
        register_slices_lem key reg ptr n (cur + slice) fuel registers (omega (arith, e))
            (omega (arith, h)),
        rdma_reg_mr,
        registers (ptr + cur) slice,
        register_slices,
      )
      refl

dereference-some : (ms : List Mem) → dereference (map some ms) ≡ ok ms
unfolding dereference
dereference-some [] = refl
dereference-some (m ∷ ms) = rw (dereference-some ms, dereference) refl

-- The request for the text.
abbrev pub announcement : Mem → ℕ → Wr
announcement m len = record {
  wr_id = 65;
  addr = m.buf;
  length = len % 4294967296;
  lkey = m.lkey;
  opcode = op_send;
  remote_addr = 0;
  rkey = 0;
}

send_from_lem :
    (takes : List Wr → Wr → Bool) (d : Door) (m : Mem) (text : List ℕ)
    → takes d.sq (announcement m (length text)) ≡ true
    → length text ≤ length d.sbuf_mem
    → send_from takes (some m) d text
      ≡ ok (
        pos 0,
        record d {
          sbuf_mem = text ++ drop (length text) d.sbuf_mem;
          sq = d.sq ++ announcement m (length text) ∷ [];
        },
      )
unfolding send_from rdma_post_send
send_from_lem takes d m text took room =
    rw (took, fits (length text) (length d.sbuf_mem) room, send_from) refl
  where
    fits : (a b : ℕ) → a ≤ b → leb a b ≡ true
    fits a b h = ground arith

-- What a side needs to register its slices, at `base` and behind, and to send them with the send
-- buffer `m`; `n` polls are empty before the completion `c` comes.
pub record CanAnnounce (w : World) (d : Door) (key : Keys) (base n : ℕ) (m : Mem) (c : Wc)
    (cs : List Wc) (polls : List Poll) : Type 0 where
  pub mapped : w.supply.mmap (real_size rwbuf_size) ≡ some base
  pub registers : (a l : ℕ) → w.supply.reg a l ≡ mr_recorded (key a l)
  pub has_rw : w.has_rw ≡ true
  pub keys_small : (a l : ℕ) → (key a l).1 < 2 ^ 32
  pub addresses_small : base + 2 * rwbuf_size ≤ 10 ^ 16
  pub array_room : length w.array ≡ 12801
  pub has_buffer : d.buffers.send_mem ≡ some m
  pub buffer_room : 12800 ≤ length d.sbuf_mem
  pub took : w.takes d.sq (announcement m 12800) ≡ true
  pub completes : d.queues.send_cq ≡ idle n (some (c ∷ cs) ∷ polls)

-- The 512 slices, behind the first page of what mmap gave.
unfoldable pub own_slices : Keys → ℕ → List Mem
unfolding slices
own_slices key base = slices key (base + huge_page_size) 512 0

-- The session after `start_rw`.
abbrev pub announced : Door → Keys → ℕ → Mem → List Poll → Door
announced d key base m polls =
    let text = body (map region (own_slices key base)) in
    record (with_slices d (base + huge_page_size)
      (mapped_area base (real_size rwbuf_size) ∷ d.buffers.areas) (own_slices key base)) {
        sbuf_mem = text ++ drop (length text) d.sbuf_mem;
        sq = d.sq ++ announcement m (length text) ∷ [];
        queues = record d.queues { send_cq = polls };
      }

module _ {w : World} {d : Door} {key : Keys} {base n : ℕ} {m : Mem} {c : Wc} {cs : List Wc}
    {polls : List Poll} (can : CanAnnounce w d key base n m c cs polls) where
  abbrev pub own : List Region
  own = map region (own_slices key base)

  length-own : length own ≡ 512
  unfolding own_slices
  length-own =
      length-map (slices key (base + huge_page_size) 512 0) region
      ∙ length-slices key (base + huge_page_size) 512 0

  pub own-Fits : All Fits own
  unfolding own_slices
  own-Fits =
      slices-Fits key (base + huge_page_size) 512 0 can.keys_small
        (omega (arith, can.addresses_small))

  pub length-text : length (body own) ≡ 12800
  length-text = length-body own own-Fits ∙ omega (arith, length-own)

  text_lem : slices_text w.array own ≡ ok (body own)
  text_lem = slices_text-body w.array own own-Fits (omega (arith, length-own, can.array_room))

  abbrev held : Door
  held =
      with_slices d (base + huge_page_size)
        (mapped_area base (real_size rwbuf_size) ∷ d.buffers.areas) (own_slices key base)

  sent :
      send_buffer w.takes held (body own)
      ≡ ok (
        pos 0,
        record held {
          sbuf_mem = body own ++ drop (length (body own)) d.sbuf_mem;
          sq = d.sq ++ announcement m (length (body own)) ∷ [];
        },
      )
  unfolding send_buffer
  sent =
      ap (λ o. send_from w.takes o held (body own)) can.has_buffer
      ∙ send_from_lem w.takes held m (body own) (rw length-text can.took)
          (omega (arith, length-text, can.buffer_room))

  -- What follows the text, and what follows the request.
  after_sent : ℤ × Door → Outcome Door
  after_sent x = rdma_query_cq x.1.queues 1 >>= λ y. ok (record x.1 { queues = y.2 })

  announce_lem : announce w held (own_slices key base) ≡ ok (announced d key base m polls)
  unfolding announce after_sent
  announce_lem =
      ap (λ o. o >>= λ text. send_buffer w.takes held text >>= after_sent) text_lem
      ∙ ap (λ o. o >>= after_sent) sent
      ∙ ap (λ o. o >>= λ y. ok (record after_text { queues = y.2 }))
          (rdma_query_cq-some_sent n c cs d.queues polls can.completes).1
    where
      after_text : Door
      after_text = record held {
        sbuf_mem = body own ++ drop (length (body own)) d.sbuf_mem;
        sq = d.sq ++ announcement m (length (body own)) ∷ [];
      }

  start_slices_lem :
      start_slices w d
        (some (base + huge_page_size))
        (mapped_area base (real_size rwbuf_size) ∷ d.buffers.areas)
      ≡ ok (announced d key base m polls)
  unfolding start_slices own_slices
  start_slices_lem =
      rw (can.has_rw, start_slices)
        (ap (λ o. o >>= λ mems. dereference mems >>= with_own)
            (register_slices_lem key w.supply.reg (base + huge_page_size) 512 0 513 can.registers
              (omega arith) (omega arith))
          ∙ ap (λ o. o >>= with_own) (dereference-some (own_slices key base))
          ∙ announce_lem)
    where
      with_own : List Mem → Outcome Door
      with_own ms =
          announce w
            (with_slices d (base + huge_page_size)
              (mapped_area base (real_size rwbuf_size) ∷ d.buffers.areas) ms)
            ms

  pub start_rw_lem : start_rw w d ≡ ok (announced d key base m polls)
  unfolding start_rw
  start_rw_lem =
      ap (λ p. start_slices w d p.0 p.1)
        (malloc-mapped w.supply.mmap w.supply.malloc rwbuf_size base d.buffers.areas can.mapped)
      ∙ start_slices_lem
