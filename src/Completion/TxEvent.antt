-- ===== src/Completion/TxEvent.antt =====
-- RDMAWorker::handle_tx_event of rdma/RDMAStack.cc.
use mathlib.Core.List.{append_assoc, append-nil}
use workd.Prelude.{ℕ, ◌+◌, ◌≡◌, ap, ◌∙◌, Bool, true, false, List, [], ◌∷◌, ◌++◌, All, arith}
use workd.Prelude.Outcome.{Outcome, ok, fault, spent, ◌>>=◌}
use workd.Memory.Chunk.{Chunk}
use workd.Memory.Cluster.{take_back}
use workd.Memory.Manager.{Manager, return_channel}
use workd.Completion.{Wc, Poll, got, failed}

-- One poll's responses: a failed one is an `assert(0)`.
return_responses : Manager → List Wc → Outcome Manager
return_responses m [] = ok m
return_responses m (w ∷ ws) = elim w.success [
  | false ↦ fault
  | true ↦ return_responses (return_channel m w.wr_id) ws
]

-- What the handler leaves: the manager, and how often it re-armed the queue.
pub record Handled : Type 0 where
  pub manager : Manager
  pub rearms : ℕ

-- From `again` on; the list has the polls to come, and a run that is not over at its end is
-- `spent`. A poll with an error has n = -1: no response is looked at, and `if(n)` polls again.
poll_loop : List Poll → Bool → ℕ → Manager → Outcome Handled
poll_loop [] rearmed k m = spent
poll_loop (failed ∷ ps) rearmed k m = poll_loop ps rearmed k m
poll_loop (got [] ∷ ps) true k m = ok (record { manager = m; rearms = k })
poll_loop (got [] ∷ ps) false k m = poll_loop ps true (k + 1) m
poll_loop (got (w ∷ ws) ∷ ps) rearmed k m =
    return_responses m (w ∷ ws) >>= λ m'. poll_loop ps rearmed k m'

-- `event` is what `get_cq_event` returned: with no event the handler leaves at once.
pub handle_tx_event : Bool → List Poll → Manager → Outcome Handled
handle_tx_event false ps m = ok (record { manager = m; rearms = 0 })
handle_tx_event true ps m = poll_loop ps false 0 m

-- The chunks of the responses of some polls.
abbrev chunks_in : List Wc → List Chunk
chunks_in [] = []
chunks_in (w ∷ ws) = w.wr_id ∷ chunks_in ws

-- Polls that bring work, each with at least one response and all of them successful, or an error.
abbrev pub Busy : List Poll → Type 0
Busy [] = Unit {0}
Busy (failed ∷ ps) = Busy ps
Busy (got [] ∷ ps) = ⊥
Busy (got (w ∷ ws) ∷ ps) = All (λ w. w.success ≡ true) (w ∷ ws) × Busy ps

abbrev pub completed : List Poll → List Chunk
completed [] = []
completed (failed ∷ ps) = completed ps
completed (got ws ∷ ps) = chunks_in ws ++ completed ps

abbrev pub with_returned : Manager → List Chunk → Manager
with_returned m cs = record m {
  send = record { chunk_size = m.send.chunk_size; free_chunks = m.send.free_chunks ++ cs };
}

return_responses_lem :
    (m : Manager) (ws : List Wc)
    → All (λ w. w.success ≡ true) ws
    → return_responses m ws ≡ ok (with_returned m (chunks_in ws))
unfolding return_responses return_channel take_back
return_responses_lem m [] h = ground (arith, append-nil m.send.free_chunks)
return_responses_lem m (w ∷ ws) h =
    rw (h.0, return_responses)
      (return_responses_lem (return_channel m w.wr_id) ws h.1 ∙ rw append_assoc)

with_returned-nil : (m : Manager) → with_returned m [] ≡ m
with_returned-nil m = rw append-nil

with_returned-append :
    (m : Manager) (xs ys : List Chunk)
    → with_returned (with_returned m xs) ys ≡ with_returned m (xs ++ ys)
with_returned-append m xs ys = rw append_assoc

poll_loop-Busy :
    (ps rest : List Poll) (rearmed : Bool) (k : ℕ) (m : Manager)
    → Busy ps
    → poll_loop (ps ++ rest) rearmed k m ≡ poll_loop rest rearmed k (with_returned m (completed ps))
unfolding poll_loop
poll_loop-Busy [] rest rearmed k m h = rw (with_returned-nil m)
poll_loop-Busy (failed ∷ ps) rest rearmed k m h = poll_loop-Busy ps rest rearmed k m h
poll_loop-Busy (got [] ∷ ps) rest rearmed k m h = absurd h
poll_loop-Busy (got (w ∷ ws) ∷ ps) rest rearmed k m h = rw (return_responses_lem m (w ∷ ws) h.0) (
    poll_loop-Busy ps rest rearmed k (with_returned m (chunks_in (w ∷ ws))) h.1
    ∙ ap (poll_loop rest rearmed k) (with_returned-append m (chunks_in (w ∷ ws)) (completed ps)))

-- One event drains the queue: after polls that bring only successful responses or an error, an
-- empty one, again such polls, for what came in before the queue was re-armed, and an empty one,
-- the handler returns, having re-armed once and returned the chunk of every response once, in
-- order, to the send pool.
pub handle_tx_event_lem :
    (before after rest : List Poll) (m : Manager)
    → Busy before
    → Busy after
    → handle_tx_event true (before ++ (got [] ∷ (after ++ (got [] ∷ rest)))) m
      ≡ ok (record { manager = with_returned m (completed before ++ completed after); rearms = 1 })
unfolding handle_tx_event poll_loop
handle_tx_event_lem before after rest m h k =
    poll_loop-Busy before (got [] ∷ (after ++ (got [] ∷ rest))) false 0 m h
    ∙ poll_loop-Busy after (got [] ∷ rest) true 1 (with_returned m (completed before)) k
    ∙ rw (with_returned-append m (completed before) (completed after))
