-- ===== src/Socket/Recv/Bounds.antt =====
-- `read` never puts more into the caller's buffer than it has room for.
use workd.Prelude.{
  ℕ, zero, suc, ◌+◌, ◌-◌, ◌≤◌, ◌≡◌, ◌∙◌, refl, Bool, true, false, List, [], ◌∷◌, ◌++◌, arith,
  length, length-append, All, All-append, ◌==◌, leb, Bool-cases, inl, inr,
}
use workd.Prelude.Outcome.{Outcome, ok}
use workd.Memory.Chunk
use workd.Memory.Chunk.{Chunk}
use workd.Memory.Chunk.Laws.{IsValid, read_lem}
use workd.Completion.{Channel, get_cq_event, Wc, Poll, got, failed}
use workd.Completion.Ack.{get_cq_event-there, get_cq_event-none}
use workd.Socket.Recv.{Reader, read_from, response, responses, read_loop, wait, read}

-- What holds between the responses.
pub record IsBounded (len : ℕ) (r : Reader) : Type 0 where
  pub room : r.count ≤ len
  pub counted : length r.buf ≡ r.count
  pub buffers : All IsValid r.rx_buffers

-- A response that is no failure, for a chunk in order.
abbrev GoodWc : Wc → Type 0
GoodWc w = (w.success ≡ true) × IsValid w.wr_id

-- Polls that bring work, each with at least one response, all of them good, or an error.
abbrev Work : List Poll → Type 0
Work [] = Unit {0}
Work (failed ∷ ps) = Work ps
Work (got [] ∷ ps) = ⊥
Work (got (w ∷ ws) ∷ ps) = All GoodWc (w ∷ ws) × Work ps

read_from_lem :
    (len n : ℕ) (cs : List Chunk)
    → n ≤ len
    → All IsValid cs
    → let (bytes, k, cs') = read_from len n cs in
      (k ≤ len) × (n + length bytes ≡ k) × All IsValid cs'
unfolding read_from
read_from_lem len n [] h v = (h, omega arith, tt)
read_from_lem len n (c ∷ cs) h v = ground (
  arith,
  read_lem c (len - n) v.0,
  read_from_lem len (n + (Chunk.read c (len - n)).1) cs,
  length-append (Chunk.read c (len - n)).0 (read_from len (n + (Chunk.read c (len - n)).1) cs).0,
  v.1,
)

-- The reader returns with the bounds kept.
abbrev Keeps : ℕ → Outcome Reader → Type 0
Keeps len o = (r : Reader) × (o ≡ ok r) × IsBounded len r

take_in :
    (len want : ℕ) (r : Reader) (c : Chunk)
    → IsBounded len r
    → IsValid c
    → want ≤ len - r.count
    → IsBounded len
        (record r { buf = r.buf ++ (Chunk.read c want).0; count = r.count + (Chunk.read c want).1 })
take_in len want r c b v h = record {
  room = omega (arith, b.room, (read_lem c want v).0);
  counted =
      omega (arith, b.counted, length-append r.buf (Chunk.read c want).0, (read_lem c want v).2);
  buffers = b.buffers;
}

response-IsBounded :
    (len : ℕ) (r : Reader) (w : Wc) → IsBounded len r → GoodWc w → Keeps len (response len r w)
unfolding response
response-IsBounded len r w b v = elim (Bool-cases (r.count == len)) [
  | inl done ↦ (
    record r { rx_buffers = r.rx_buffers ++ w.wr_id ∷ [] },
    rw (v.0, done),
    record {
      room = b.room;
      counted = b.counted;
      buffers = All-append IsValid r.rx_buffers (w.wr_id ∷ []) b.buffers (v.1, tt);
    },
  )
  | inr more ↦ elim (Bool-cases (leb len (r.count + w.byte_len))) [
    | inl last ↦ (
      record r {
        buf = r.buf ++ (Chunk.read w.wr_id (len - r.count)).0;
        count = r.count + (Chunk.read w.wr_id (len - r.count)).1;
        rx_buffers = r.rx_buffers ++ (Chunk.read w.wr_id (len - r.count)).2 ∷ [];
      },
      rw (v.0, more, last),
      let t = take_in len (len - r.count) r w.wr_id b v.1 (omega arith) in
          record {
            room = t.room;
            counted = t.counted;
            buffers =
                All-append IsValid r.rx_buffers _ b.buffers
                  ((read_lem w.wr_id (len - r.count) v.1).4, tt);
          },
    )
    | inr whole ↦ (
      record r {
        buf = r.buf ++ (Chunk.read w.wr_id w.byte_len).0;
        count = r.count + (Chunk.read w.wr_id w.byte_len).1;
      },
      rw (v.0, more, whole),
      take_in len w.byte_len r w.wr_id b v.1 (ground arith),
    )
  ]
]

responses-IsBounded :
    (len : ℕ) (r : Reader) (ws : List Wc)
    → IsBounded len r
    → All GoodWc ws
    → Keeps len (responses len r ws)
unfolding responses
responses-IsBounded len r [] b v = (r, refl, b)
responses-IsBounded len r (w ∷ ws) b v =
    let (r', e, b') = response-IsBounded len r w b v.0 in
    let (r'', e', b'') = responses-IsBounded len r' ws b' v.1 in (r'', rw (e, responses) e', b'')

-- Through the polls that bring work.
Work-IsBounded :
    (len : ℕ) (ps rest : List Poll) (rearmed : Bool) (r : Reader)
    → IsBounded len r
    → Work ps
    → (r' : Reader) × (read_loop len (ps ++ rest) rearmed r ≡ read_loop len rest rearmed r')
      × IsBounded len r'
unfolding read_loop
Work-IsBounded len [] rest rearmed r b v = (r, refl, b)
Work-IsBounded len (failed ∷ ps) rest rearmed r b v = Work-IsBounded len ps rest rearmed r b v
Work-IsBounded len (got [] ∷ ps) rest rearmed r b v = absurd v
Work-IsBounded len (got (w ∷ ws) ∷ ps) rest rearmed r b v =
    let (r', e, b') = responses-IsBounded len r (w ∷ ws) b v.0 in
    let (r'', e', b'') = Work-IsBounded len ps rest rearmed r' b' v.1 in
    (r'', rw (e, read_loop) e', b'')

-- A completion queue that is drained twice: work, an empty poll, after which the queue is re-armed,
-- work that came in between, and an empty poll.
abbrev pub drained : List Poll → List Poll → List Poll → List Poll
drained before after rest = before ++ (got [] ∷ (after ++ (got [] ∷ rest)))

loop-IsBounded :
    (len : ℕ) (before after rest : List Poll) (r : Reader)
    → IsBounded len r
    → Work before
    → Work after
    → Keeps len (read_loop len (drained before after rest) false r)
unfolding read_loop
loop-IsBounded len before after rest r b v u =
    let (r', e, b') = Work-IsBounded len before (got [] ∷ (after ++ (got [] ∷ rest))) false r b v in
    let (r'', e', b'') =
      Work-IsBounded len after (got [] ∷ rest) true (record r' { rearms = r'.rearms + 1 })
        (record { room = b'.room; counted = b'.counted; buffers = b'.buffers }) u in
    (r'', e ∙ e', b'')

-- `n` calls of `get_cq_event` that find nothing, then one that finds an event.
abbrev pub spins : ℕ → List Bool → List Bool
spins zero es = true ∷ es
spins (suc n) es = false ∷ spins n es

pub wait-returns :
    (n : ℕ) (es : List Bool) (ch : Channel) → wait (spins n es) ch ≡ ok (get_cq_event true ch).1
unfolding wait
wait-returns zero es ch = rw (get_cq_event-there ch, wait)
wait-returns (suc n) es ch = rw (get_cq_event-none ch, wait) (wait-returns n es ch)

-- For a channel that shows an event after any number of empty calls, a completion queue that is
-- drained twice and whose responses all succeed for valid chunks, valid buffers from before, and
-- any request, `read` returns; it has put no more bytes into the caller's buffer than the
-- request, its result is the number of bytes that it put there, and the buffers that it keeps are
-- valid.
pub read_bounds :
    (n : ℕ) (es : List Bool) (before after rest : List Poll) (ch : Channel)
    (rx_buffers : List Chunk) (len : ℕ)
    → Work before
    → Work after
    → All IsValid rx_buffers
    → (ch' : Channel) × (r : Reader) × (read
          (spins n es)
          (drained before after rest)
          ch
          rx_buffers
          len
        ≡ ok (ch', r))
      × IsBounded len r
unfolding read
read_bounds n es before after rest ch rx_buffers len v u k =
    let f = read_from_lem len 0 rx_buffers (omega arith) k in
    let (r, e', b) =
      loop-IsBounded len before after rest
        (record {
          buf = (read_from len 0 rx_buffers).0;
          count = (read_from len 0 rx_buffers).1;
          rx_buffers = (read_from len 0 rx_buffers).2;
          rearms = 0;
        })
        (record { room = f.0; counted = omega (arith, f.1); buffers = f.2 }) v u in
    ((get_cq_event true ch).1, r, rw (wait-returns n es ch, e'), b)
