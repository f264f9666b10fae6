-- ===== src/Debug/Verbs/Laws.antt =====
-- What `rdma_query_cq` gives.
use workd.Prelude.{
  ℕ, zero, suc, ◌≡◌, ◌≢◌, refl, some, true, List, [], ◌∷◌, length, All, ne_==, if◌then◌else◌,
}
use workd.Prelude.Int.{ℤ, pos, minus_one}
use workd.Prelude.Outcome.{ok}
use workd.Debug.Verbs.{Wc, Poll, Queues, all_success, poll, rdma_query_cq}

-- `n` polls that bring nothing, in front of others.
abbrev pub idle : ℕ → List Poll → List Poll
idle zero ps = ps
idle (suc n) ps = some [] ∷ idle n ps

poll-idle : (n : ℕ) (ps : List Poll) → poll (idle n ps) ≡ poll ps
unfolding poll
poll-idle zero ps = refl
poll-idle (suc n) ps = poll-idle n ps

all_success-All : (ws : List Wc) → All (λ w. w.success ≡ true) ws → all_success ws ≡ true
unfolding all_success
all_success-All [] h = refl
all_success-All (w ∷ ws) h = rw (h.0, all_success-All ws h.1)

-- A wait ends with the first poll that brings something, whatever its completions say.
pub rdma_query_cq-some_sent :
    (n : ℕ) (w : Wc) (ws : List Wc) (q : Queues) (ps : List Poll)
    → q.send_cq ≡ idle n (some (w ∷ ws) ∷ ps)
    → (r : ℤ) × (rdma_query_cq q 1 ≡ ok (r, w ∷ ws, record q { send_cq = ps }))
unfolding rdma_query_cq poll
rdma_query_cq-some_sent n w ws q ps e = (
  if all_success (w ∷ ws) then pos (length (w ∷ ws)) else minus_one,
  rw (e, poll-idle n (some (w ∷ ws) ∷ ps), rdma_query_cq) refl,
)

pub rdma_query_cq-some_received :
    (n : ℕ) (w : Wc) (ws : List Wc) (q : Queues) (ps : List Poll)
    → q.recv_cq ≡ idle n (some (w ∷ ws) ∷ ps)
    → (r : ℤ) × (rdma_query_cq q 2 ≡ ok (r, w ∷ ws, record q { recv_cq = ps }))
unfolding rdma_query_cq poll
rdma_query_cq-some_received n w ws q ps e = (
  if all_success (w ∷ ws) then pos (length (w ∷ ws)) else minus_one,
  rw (e, poll-idle n (some (w ∷ ws) ∷ ps), rdma_query_cq) refl,
)

-- Through any number of empty polls, `rdma_query_cq` with flag 1 gives the completions that the
-- send queue then brings, and their number, if all are successful; nothing else is taken off the
-- queues.
pub rdma_query_cq-sent :
    (n : ℕ) (w : Wc) (ws : List Wc) (q : Queues) (ps : List Poll)
    → All (λ w. w.success ≡ true) (w ∷ ws)
    → q.send_cq ≡ idle n (some (w ∷ ws) ∷ ps)
    → rdma_query_cq q 1 ≡ ok (pos (length (w ∷ ws)), w ∷ ws, record q { send_cq = ps })
unfolding rdma_query_cq poll
rdma_query_cq-sent n w ws q ps h e =
    rw (e, poll-idle n (some (w ∷ ws) ∷ ps), all_success-All (w ∷ ws) h, rdma_query_cq) refl

pub rdma_query_cq-received :
    (n : ℕ) (w : Wc) (ws : List Wc) (q : Queues) (ps : List Poll)
    → All (λ w. w.success ≡ true) (w ∷ ws)
    → q.recv_cq ≡ idle n (some (w ∷ ws) ∷ ps)
    → rdma_query_cq q 2 ≡ ok (pos (length (w ∷ ws)), w ∷ ws, record q { recv_cq = ps })
unfolding rdma_query_cq poll
rdma_query_cq-received n w ws q ps h e =
    rw (e, poll-idle n (some (w ∷ ws) ∷ ps), all_success-All (w ∷ ws) h, rdma_query_cq) refl

-- With any other flag than 1 and 2 nothing is polled and the result is -1.
pub rdma_query_cq-neither :
    (q : Queues) (flag : ℕ) → flag ≢ 1 → flag ≢ 2 → rdma_query_cq q flag ≡ ok (minus_one, [], q)
unfolding rdma_query_cq
rdma_query_cq-neither q flag h k = rw (ne_== flag 1 h, ne_== flag 2 k) refl
