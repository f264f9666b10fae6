-- ===== src/Debug/Session/Read.antt =====
-- `read` of a session.
use native.Mathlib.Nat.{mod-eq_of_lt}
use workd.Prelude.{◌+◌, ◌<◌, ◌≡◌, refl, ap, ◌∙◌, [], arith, ne_==}
use workd.Prelude.Int.{minus_one}
use workd.Prelude.Outcome.{ok}
use workd.Debug.Verbs.Laws.{rdma_query_cq-neither}
use workd.Debug.Session.{Session, query, read, read_wcs, read_rest, done_wcs}

-- Whatever the completion queues bring, `query` takes nothing off them and returns -1.
query-fails : (s : Session) → query s ≡ ok (minus_one, [], s)
unfolding query
query-fails s = rw (rdma_query_cq-neither s.queues 3 (omega arith) (omega arith), query) refl

-- `read` of a session whose index is that of a receive buffer never reads: whatever has come in
-- and whatever the buffers hold, it copies no byte, takes no completion off the queues, and
-- leaves the session as it was.
pub read_nothing : (s : Session) → s.recv_index < s.recv_nums → read s ≡ ok ([], s)
unfolding read read_wcs read_rest done_wcs
read_nothing s h =
    rw (ne_== s.recv_nums 0 (omega arith), query-fails s, read)
      (ap (λ i. ok ([], record s { recv_index = i }))
        (mod-eq_of_lt {n = s.recv_index + 0} (omega arith) ∙ omega arith))
