-- ===== src/Socket/Recv.antt =====
-- RDMAConnectedSocketImpl::read and read_buffers of rdma/RDMAConnectedSocketImpl.cc. The caller's
-- buffer is the list of the bytes that have been put into it, from its start on.
pub mod Bounds
pub mod Collect
pub mod Again
pub mod Stale
use workd.Prelude.{
  ℕ, zero, suc, ◌+◌, ◌-◌, Bool, true, false, List, [], ◌∷◌, ◌++◌, ltb, leb, ◌==◌, if◌then◌else◌,
}
use workd.Prelude.Int.{ℤ, pos}
use workd.Prelude.Outcome.{Outcome, ok, fault, spent, ◌>>=◌}
use workd.Memory.Chunk
use workd.Memory.Chunk.{Chunk}
use workd.Completion.{Channel, get_cq_event, Wc, Poll, got, failed}

-- `read_buffers`: the bytes put into `buf`, their number, and `rx_buffers`, whose chunks the calls
-- of `read` have changed.
pub read_from : ℕ → ℕ → List Chunk → List ℕ × ℕ × List Chunk
read_from len n [] = ([], n, [])
read_from len n (c ∷ cs) =
    let (bytes, r, c') = Chunk.read c (len - n) in
    let rest = read_from len (n + r) cs in
    if n + r == len then (bytes, n + r, c' ∷ cs) else (bytes ++ rest.0, rest.1, c' ∷ rest.2)

pub read_buffers : List Chunk → ℕ → List ℕ × ℕ × List Chunk
unfolding read_from
read_buffers rx_buffers len = read_from len 0 rx_buffers

-- The variables of `read`: the bytes in `buf`, `read`, the member `rx_buffers`, and how often the
-- queue has been re-armed.
pub record Reader : Type 0 where
  pub buf : List ℕ
  pub count : ℕ
  pub rx_buffers : List Chunk
  pub rearms : ℕ

-- One response; a failed one is an `assert(0)`.
pub response : ℕ → Reader → Wc → Outcome Reader
response len r w = elim w.success [
  | false ↦ fault
  | true ↦
      if r.count == len
      then ok (record r { rx_buffers = r.rx_buffers ++ w.wr_id ∷ [] })
      else if leb len (r.count + w.byte_len)
      then (let (bytes, n, c) = Chunk.read w.wr_id (len - r.count) in
          ok (record r {
            buf = r.buf ++ bytes;
            count = r.count + n;
            rx_buffers = r.rx_buffers ++ c ∷ [];
          }))
      else (let (bytes, n, c) = Chunk.read w.wr_id w.byte_len in
          ok (record r { buf = r.buf ++ bytes; count = r.count + n }))
]

pub responses : ℕ → Reader → List Wc → Outcome Reader
responses len r [] = ok r
responses len r (w ∷ ws) = response len r w >>= λ r'. responses len r' ws

-- From `again` on, over the polls to come: a run that is not over at the end of the list is
-- `spent`. A poll with an error has n = -1: it brings no response, and `if(n)` polls again.
pub read_loop : ℕ → List Poll → Bool → Reader → Outcome Reader
read_loop len [] rearmed r = spent
read_loop len (failed ∷ ps) rearmed r = read_loop len ps rearmed r
read_loop len (got [] ∷ ps) true r = ok r
read_loop len (got [] ∷ ps) false r = read_loop len ps true (record r { rearms = r.rearms + 1 })
read_loop len (got (w ∷ ws) ∷ ps) rearmed r =
    responses len r (w ∷ ws) >>= λ r'. read_loop len ps rearmed r'

-- `while(!cc->get_cq_event()) ;`, over what `ibv_get_cq_event` returns.
pub wait : List Bool → Channel → Outcome Channel
wait [] ch = spent
wait (e ∷ es) ch = let (there, ch') = get_cq_event e ch in if there then ok ch' else wait es ch'

-- The result is the field `count` of the reader.
pub read : List Bool → List Poll → Channel → List Chunk → ℕ → Outcome (Channel × Reader)
unfolding read_buffers
read events polls ch rx_buffers len = do
  ch' ← wait events ch
  let first = read_buffers rx_buffers len
  r ←
      read_loop len polls false
        (record { buf = first.0; count = first.1; rx_buffers = first.2; rearms = 0 })
  ok (ch', r)
