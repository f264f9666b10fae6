-- ===== src/Socket/Recv/Stale.antt =====
-- A request for just as many bytes as came in.
use mathlib.Core.List.{append-nil}
use workd.Prelude.{ℕ, ◌+◌, ◌-◌, ◌≤◌, ◌<◌, ◌≡◌, refl, Bool, true, List, [], ◌∷◌, arith, take, drop}
use workd.Prelude.Outcome.{ok}
use workd.Memory.Chunk
use workd.Memory.Chunk.{Chunk}
use workd.Memory.Chunk.Laws.{IsValid, read_lem}
use workd.Completion.{Channel, get_cq_event, Wc, Poll, got}
use workd.Socket.Recv.{read_from, read_buffers, response, responses, read_loop, read}
use workd.Socket.Recv.Bounds.{spins, drained, wait-returns}
use workd.Socket.Recv.Collect.{FreshWc}

-- The chunk of a completion with the cursor behind its first `n` bytes.
abbrev pub behind : Wc → ℕ → Chunk
behind w n = record (w.wr_id) { offset = n }

-- A read of a chunk that has the bytes.
read-fits :
    (c : Chunk) (len : ℕ)
    → IsValid c
    → len ≤ c.bytes - c.offset
    → Chunk.read c len
      ≡ (take len (drop c.offset c.store), len, record c { offset = c.offset + len })
read-fits c len v h = ground (arith, read_lem c len v)

response_exact :
    (w : Wc)
    → FreshWc w
    → 0 < w.byte_len
    → response w.byte_len (record { buf = []; count = 0; rx_buffers = []; rearms = 0 }) w
      ≡ ok (record {
        buf = take w.byte_len w.wr_id.store;
        count = w.byte_len;
        rx_buffers = behind w w.byte_len ∷ [];
        rearms = 0;
      })
unfolding response
response_exact w v h = ground (arith, read-fits w.wr_id w.byte_len v.1)

-- `read` of what a chunk that waits in `rx_buffers` still has room for, with no completion to come.
buffered_read :
    (n : ℕ) (es : List Bool) (rest : List Poll) (ch : Channel) (c : Chunk) (len : ℕ)
    → IsValid c
    → len ≤ c.bytes - c.offset
    → read (spins n es) (drained [] [] rest) ch (c ∷ []) len
      ≡ ok (
        (get_cq_event true ch).1,
        record {
          buf = take len (drop c.offset c.store);
          count = len;
          rx_buffers = record c { offset = c.offset + len } ∷ [];
          rearms = 1;
        },
      )
unfolding read read_buffers read_from read_loop
buffered_read n es rest ch c len v h =
    rw (wait-returns n es ch, read)
      (ground (arith, read-fits c len v h, append-nil (take len (drop c.offset c.store))))

-- A request for just as many bytes as a message brought gets them, but keeps the chunk, so that the
-- next request, though its event brings no completion, is met with the bytes that stand in the
-- chunk's memory behind the message, which no message brought: as many of them as it asks for, up
-- to the chunk's end.
pub read_stale :
    (n k : ℕ) (es es' : List Bool) (rest rest' : List Poll) (ch : Channel) (w : Wc) (len : ℕ)
    → FreshWc w
    → 0 < w.byte_len
    → w.byte_len + len ≤ w.wr_id.bytes
    → let ch' = (get_cq_event true ch).1 in
      (read (spins n es) (drained (got (w ∷ []) ∷ []) [] rest) ch [] w.byte_len
        ≡ ok (
          ch',
          record {
            buf = take w.byte_len w.wr_id.store;
            count = w.byte_len;
            rx_buffers = behind w w.byte_len ∷ [];
            rearms = 1;
          },
        ))
      × (read (spins k es') (drained [] [] rest') ch' (behind w w.byte_len ∷ []) len
          ≡ ok (
            (get_cq_event true ch').1,
            record {
              buf = take len (drop w.byte_len w.wr_id.store);
              count = len;
              rx_buffers = behind w (w.byte_len + len) ∷ [];
              rearms = 1;
            },
          ))
unfolding read read_buffers read_from read_loop responses
read_stale n k es es' rest rest' ch w len v h fits = (
  rw (wait-returns n es ch, response_exact w v h, read) refl,
  buffered_read k es' rest' (get_cq_event true ch).1 (behind w w.byte_len) len
      (record { cursor = omega (arith, v.3); small = v.1.small; sized = v.1.sized })
      (omega (arith, fits)),
)
