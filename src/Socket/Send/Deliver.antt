-- ===== src/Socket/Send/Deliver.antt =====
-- What `send` gives to the queue pair.
use workd.Prelude.{
  ℕ, ◌+◌, ◌*◌, ◌/◌, ◌^◌, ◌≤◌, ◌<◌, ◌≡◌, refl, ap, ◌∙◌, inl, inr, Bool, List, [], ◌∷◌, ◌++◌, map,
  reverse, length, length-map, take, u32, All, All-append, All-append_reverse, arith, if◌then◌else◌,
}
use workd.Prelude.Int.{pos, minus_one}
use workd.Prelude.Outcome.{ok}
use workd.Memory.Chunk.{Chunk}
use workd.Memory.Chunk.Laws.{IsValid, Ready}
use workd.Memory.Cluster.{get_buffers}
use workd.Memory.Cluster.Take.{Handed-cases, get_buffers-Handed}
use workd.Memory.Manager.{Manager}
use workd.Memory.Manager.Laws.{get_tx_buffers_lem}
use workd.Socket.Send.{total, SendWr, send_wr, Sent, post_send, send}
use workd.Socket.Send.Fill.{
  content, IsFresh, Open, Open-fresh, content-fresh, room, identity, fill-Filled, message,
}

-- What the device reads for a request: `length` bytes from `addr` on, the start of the chunk.
abbrev pub payload : List SendWr → List ℕ
payload [] = []
payload (w ∷ ws) = take w.length w.wr_id.store ++ payload ws

payload-send_wr : (cs : List Chunk) → All IsValid cs → payload (map send_wr cs) ≡ content cs
unfolding send_wr
payload-send_wr [] h = refl
payload-send_wr (c ∷ cs) h = rw (payload-send_wr cs h.1) (
    ap (λ n. take n c.store ++ content cs)
      (let e : u32 c.offset ≡ c.offset = omega (arith, h.0.cursor, h.0.small) in e))

-- Which memory a request names.
abbrev pub place : SendWr → ℕ × ℕ × ℕ
place w = (w.addr, w.wr_id.bytes, w.lkey)

place-send_wr : (cs : List Chunk) → map place (map send_wr cs) ≡ map identity cs
unfolding send_wr
place-send_wr [] = refl
place-send_wr (c ∷ cs) = ap (◌∷◌ (identity c)) (place-send_wr cs)

owners-send_wr : (cs : List Chunk) → map (λ w. identity w.wr_id) (map send_wr cs) ≡ map identity cs
unfolding send_wr
owners-send_wr [] = refl
owners-send_wr (c ∷ cs) = ap (◌∷◌ (identity c)) (owners-send_wr cs)

Ready-IsFresh : (size : ℕ) (cs : List Chunk) → 0 < size → All (Ready size) cs → All IsFresh cs
Ready-IsFresh size [] big h = tt
Ready-IsFresh size (c ∷ cs) big h =
    ((h.0.0, h.0.2, omega (arith, h.0.1)), Ready-IsFresh size cs big h.1)

room-Ready : (size : ℕ) (cs : List Chunk) → All (Ready size) cs → room cs ≡ length cs * size
room-Ready size [] h = omega arith
room-Ready size (c ∷ cs) h = omega (arith, h.0.1, h.0.2, room-Ready size cs h.1)

Open-IsValid : (cs : List Chunk) → Open cs → All IsValid cs
Open-IsValid [] h = tt
Open-IsValid (c ∷ cs) h = (h.0, fresh cs h.2)
  where
    fresh : (cs : List Chunk) → All IsFresh cs → All IsValid cs
    fresh [] h = tt
    fresh (c ∷ cs) h = (h.0.0, fresh cs h.1)

-- A manager, a message and fuel for which `send` is meant to work: chunks of a size of at least
-- one byte, all ready, a message that is not empty and fits the free chunks, buffers of
-- `uint32_t` length.
pub record CanSend (fuel : ℕ) (m : Manager) (bl : List (List ℕ)) : Type 0 where
  pub sized : 0 < m.channel.chunk_size
  pub ready : All (Ready m.channel.chunk_size) m.channel.free_chunks
  pub not_empty : 0 < total bl
  pub countable : total bl / m.channel.chunk_size + 1 < 2 ^ 32
  pub buffers : All (λ b. (length b < 2 ^ 32) × (length b < fuel)) bl
  pub fits : total bl ≤ length m.channel.free_chunks * m.channel.chunk_size

-- What the call leaves behind then, where `taken` is whether the queue pair took the requests.
pub record Delivered (m : Manager) (bl : List (List ℕ)) (taken : Bool) (s : Sent) : Type 0 where
  pub content_sent : payload s.posted ≡ message bl
  pub result : s.result ≡ (if taken then pos (total bl) else minus_one)
  pub left_over : s.bl ≡ (if taken then [] else bl)
  pub chunks : List Chunk
  pub drawn : m.channel.free_chunks ≡ s.manager.channel.free_chunks ++ reverse chunks
  pub places : map place s.posted ≡ map identity chunks
  pub few : length s.posted * m.channel.chunk_size < total bl + m.channel.chunk_size
  pub owners : map (λ w. identity w.wr_id) s.posted ≡ map identity chunks
  pub kept : s.manager.channel.chunk_size ≡ m.channel.chunk_size
  pub others : (s.manager.send ≡ m.send) × (s.manager.rdma ≡ m.rdma)

pub post_send_lem :
    (takes : List SendWr → Bool) (m : Manager) (bl : List (List ℕ)) (ws : List SendWr)
    → 0 < length ws
    → post_send takes m bl ws
      ≡ ok (record {
        result = if takes ws then pos (total bl) else minus_one;
        manager = m;
        bl = if takes ws then [] else bl;
        posted = ws;
      })
unfolding post_send
post_send_lem takes m bl [] h = absurd (omega arith)
post_send_lem takes m bl (w ∷ ws) h = ground arith

-- A message that fits is sent whole: for ready chunks of at least one byte, a message of at least
-- one byte that fits the free chunks and whose number of chunks and buffers' lengths fit
-- `uint32_t`, and more rounds of fuel than a buffer has bytes, `send` returns; the requests that
-- it posts carry together exactly the bytes of the message in order, and each names memory of a
-- chunk that it took off the back of the receive pool, no more chunks than needed. If the queue
-- pair takes the requests the result is the number of bytes and the caller's list is cleared, if
-- not the result is -1 and the list stays; the other pools stay either way.
pub send-Delivered :
    (takes : List SendWr → Bool) (fuel : ℕ) (m : Manager) (bl : List (List ℕ))
    → CanSend fuel m bl
    → (s : Sent) × (send takes fuel m bl ≡ ok s) × Delivered m bl (takes s.posted) s
unfolding send
send-Delivered takes fuel m bl v =
    elim (Handed-cases m.channel (total bl) (get_buffers m.channel (total bl))
      (get_buffers-Handed m.channel (total bl) v.sized v.not_empty v.countable)) [
        | inr (e, few) ↦ absurd (omega (arith, v.fits, few))
        | inl (ret, rest, e, split, lo, hi) ↦
            let ready : All (Ready m.channel.chunk_size) ret =
              All-append_reverse (Ready m.channel.chunk_size) rest ret (rw split at v.ready) in
            let (out, e', f) =
              fill-Filled fuel bl [] ret tt
                (Open-fresh ret (Ready-IsFresh m.channel.chunk_size ret v.sized ready)) v.buffers
                (omega (arith, lo, room-Ready m.channel.chunk_size ret ready)) in
            let count : length (map send_wr (out.0 ++ out.1)) ≡ length ret = omega (
              arith,
              ap length f.same,
              length-map (out.0 ++ out.1) identity,
              length-map ret identity,
              length-map (out.0 ++ out.1) send_wr,
            ) in
            let ws = map send_wr (out.0 ++ out.1) in
            (
              record {
                result = if takes ws then pos (total bl) else minus_one;
                manager = record m {
                  channel = record { chunk_size = m.channel.chunk_size; free_chunks = rest };
                };
                bl = if takes ws then [] else bl;
                posted = ws;
              },
              rw (get_tx_buffers_lem m (total bl) ret _ e, e')
                  (post_send_lem takes _ bl ws (grind (arith, lo, count))),
              record {
                content_sent =
                    payload-send_wr (out.0 ++ out.1)
                      (All-append IsValid out.0 out.1 f.valid (Open-IsValid out.1 f.ahead))
                    ∙ f.content_out
                    ∙ rw (content-fresh ret (Ready-IsFresh m.channel.chunk_size ret v.sized ready));
                result = refl;
                left_over = refl;
                chunks = ret;
                drawn = split;
                places = place-send_wr (out.0 ++ out.1) ∙ f.same;
                few = rw count hi;
                owners = owners-send_wr (out.0 ++ out.1) ∙ f.same;
                kept = refl;
                others = (refl, refl);
              },
            )
      ]
