-- ===== src/Debug/QuerySr.antt =====
-- rdma_session::query_sr of debug/rdma_session.cpp, which writes the lengths of what came in as
-- texts.
pub mod Laws
use workd.Prelude.{
  ℕ, suc, ◌+◌, Bool, true, false, List, [], ◌∷◌, ◌++◌, ◌==◌, leb, length, take, replicate, copy_to,
  if◌then◌else◌,
}
use workd.Prelude.Int.{ℤ, pos, negsuc}
use workd.Prelude.Outcome.{Outcome, ok, fault, ◌>>=◌}
use workd.Text.{print}
use workd.Debug.Verbs.{Wc, Queues, rdma_query_cq}

-- The loop: `qbuf` from `cur` on, and the count. %ld of a length.
pub write_lengths : List ℕ → ℕ → ℕ → List Wc → Outcome (ℕ × List ℕ)
write_lengths qbuf cur cnt [] = ok (cnt, qbuf)
write_lengths qbuf cur cnt (w ∷ ws) =
    let s = print 10 1 w.byte_len ++ (0 ∷ []) in
    let written = write_lengths (copy_to qbuf cur s) (cur + 8) (cnt + 1) ws in
    let skipped = write_lengths qbuf cur cnt ws in
    elim (w.wr_id == 666) [
      | true ↦ if leb (cur + length s) (length qbuf) then written else fault
      | false ↦ skipped
    ]

-- The result, `qbuf` and the queues.
pub query_sr : Queues → List ℕ → Outcome (ℕ × List ℕ × Queues)
unfolding write_lengths
query_sr queues qbuf = do
  (r, ws, q) ← rdma_query_cq queues 2
  (let cleared = replicate (length qbuf) 0 in
      let n : ℕ = elim r [ pos n ↦ n | negsuc n ↦ 0 ] in
      do (cnt, text) ← write_lengths cleared 0 0 (take n ws); ok (cnt, text, q))
