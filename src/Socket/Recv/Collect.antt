-- ===== src/Socket/Recv/Collect.antt =====
-- What `read` gives while the request is larger than what has come in.
use mathlib.Core.List.{append_assoc, append-nil}
use workd.Prelude.{
  ℕ, ◌+◌, ◌≤◌, ◌<◌, ◌≡◌, ap, ◌∙◌, Bool, true, false, List, [], ◌∷◌, ◌++◌, arith, take, All,
}
use workd.Prelude.Outcome.{ok}
use workd.Memory.Chunk.Laws.{IsValid, read_lem}
use workd.Completion.{Channel, get_cq_event, Wc, Poll, got, failed}
use workd.Socket.Recv.{Reader, read_from, read_buffers, response, responses, read_loop, read}
use workd.Socket.Recv.Bounds.{spins, drained, wait-returns}

-- A response for a chunk as it was posted, with no more bytes than the chunk has.
abbrev pub FreshWc : Wc → Type 0
FreshWc w =
    (w.success ≡ true) × IsValid w.wr_id × (w.wr_id.offset ≡ 0) × (w.byte_len ≤ w.wr_id.bytes)

abbrev pub FreshPolls : List Poll → Type 0
FreshPolls [] = Unit {0}
FreshPolls (failed ∷ ps) = FreshPolls ps
FreshPolls (got [] ∷ ps) = ⊥
FreshPolls (got (w ∷ ws) ∷ ps) = All FreshWc (w ∷ ws) × FreshPolls ps

-- The bytes that the device wrote, and their number.
abbrev pub arrived : List Wc → List ℕ
arrived [] = []
arrived (w ∷ ws) = take w.byte_len w.wr_id.store ++ arrived ws

abbrev pub amount : List Wc → ℕ
amount [] = 0
amount (w ∷ ws) = w.byte_len + amount ws

abbrev pub all_arrived : List Poll → List ℕ
all_arrived [] = []
all_arrived (failed ∷ ps) = all_arrived ps
all_arrived (got ws ∷ ps) = arrived ws ++ all_arrived ps

abbrev pub all_amount : List Poll → ℕ
all_amount [] = 0
all_amount (failed ∷ ps) = all_amount ps
all_amount (got ws ∷ ps) = amount ws + all_amount ps

abbrev more : Reader → List ℕ → ℕ → Reader
more r bytes n = record r { buf = r.buf ++ bytes; count = r.count + n }

response_fresh :
    (len : ℕ) (r : Reader) (w : Wc)
    → FreshWc w
    → r.count + w.byte_len < len
    → response len r w ≡ ok (more r (take w.byte_len w.wr_id.store) w.byte_len)
unfolding response
response_fresh len r w v h = ground (arith, read_lem w.wr_id w.byte_len v.1)

responses_fresh :
    (len : ℕ) (r : Reader) (ws : List Wc)
    → All FreshWc ws
    → r.count + amount ws < len
    → responses len r ws ≡ ok (more r (arrived ws) (amount ws))
unfolding responses
responses_fresh len r [] v h = ground (arith, append-nil r.buf)
responses_fresh len r (w ∷ ws) v h =
    rw (response_fresh len r w v.0 (omega arith), responses)
      (responses_fresh len (more r (take w.byte_len w.wr_id.store) w.byte_len) ws v.1 (omega arith)
        ∙ ground (arith, append_assoc r.buf (take w.byte_len w.wr_id.store) (arrived ws)))

loop_fresh :
    (len : ℕ) (ps rest : List Poll) (rearmed : Bool) (r : Reader)
    → FreshPolls ps
    → r.count + all_amount ps < len
    → read_loop len (ps ++ rest) rearmed r
      ≡ read_loop len rest rearmed (more r (all_arrived ps) (all_amount ps))
unfolding read_loop
loop_fresh len [] rest rearmed r v h =
    ap (read_loop len rest rearmed) (ground (arith, append-nil r.buf))
loop_fresh len (failed ∷ ps) rest rearmed r v h = loop_fresh len ps rest rearmed r v h
loop_fresh len (got [] ∷ ps) rest rearmed r v h = absurd v
loop_fresh len (got (w ∷ ws) ∷ ps) rest rearmed r v h =
    rw (responses_fresh len r (w ∷ ws) v.0 (omega arith), read_loop)
      (loop_fresh len ps rest rearmed (more r (arrived (w ∷ ws)) (amount (w ∷ ws))) v.1
          (omega arith)
        ∙ ap (read_loop len rest rearmed)
            (ground (arith, append_assoc r.buf (arrived (w ∷ ws)) (all_arrived ps))))

-- With nothing buffered, responses that all succeed for chunks as they were posted, each for no
-- more bytes than its chunk has, and fewer bytes in all of them than the request asks for, `read`
-- returns exactly the bytes that the device wrote, in the order of the responses and over any
-- number of polls on both sides of the re-arming; it re-arms the queue once and keeps no buffer.
pub read_collects :
    (n : ℕ) (es : List Bool) (before after rest : List Poll) (ch : Channel) (len : ℕ)
    → FreshPolls before
    → FreshPolls after
    → all_amount before + all_amount after < len
    → read (spins n es) (drained before after rest) ch [] len
      ≡ ok (
        (get_cq_event true ch).1,
        record {
          buf = all_arrived before ++ all_arrived after;
          count = all_amount before + all_amount after;
          rx_buffers = [];
          rearms = 1;
        },
      )
unfolding read read_buffers read_from read_loop
read_collects n es before after rest ch len v u h =
    rw
      (
        wait-returns n es ch,
        loop_fresh len before (got [] ∷ (after ++ (got [] ∷ rest))) false start v (omega arith),
        loop_fresh len after (got [] ∷ rest) true
            (record (more start (all_arrived before) (all_amount before)) { rearms = 1 }) u
            (omega arith),
      )
      (ground arith)
  where
    start : Reader
    start = record { buf = []; count = 0; rx_buffers = []; rearms = 0 }
