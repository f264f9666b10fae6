-- ===== src/Completion.antt =====
-- The completion side of rdma/Infiniband.h and rdma/Infiniband.cc: class CompletionChannel's
-- count of events to acknowledge, CompletionQueue::poll_cq, and RDMAWorker::handle_tx_event of
-- rdma/RDMAStack.cc, which drains the send completions.
pub mod Ack
pub mod TxEvent
pub mod Create
use workd.Prelude.{
  ℕ, suc, ◌+◌, ◌%◌, ◌^◌, Bool, true, false, List, [], ◌∷◌, ◌==◌, if◌then◌else◌, u32, length,
}
use workd.Prelude.Int.{ℤ, pos, negsuc, minus_one}
use workd.Prelude.Outcome.{Outcome, ok, fault, spent}
use workd.Memory.Chunk.{Chunk}

abbrev pub max_ack_event : ℕ
max_ack_event = 128

-- CompletionChannel: `acked` sums what `ibv_ack_cq_events` has been given.
pub record Channel : Type 0 where
  pub cq_events_that_need_ack : ℕ
  pub acked : ℕ

-- The constructor.
pub init_channel : Channel
init_channel = record { cq_events_that_need_ack = 0; acked = 0 }

unfoldable ack_events : Channel → Channel
ack_events ch = record {
  cq_events_that_need_ack = 0;
  acked = ch.acked + ch.cq_events_that_need_ack;
}

-- `there` is whether `ibv_get_cq_event` returned an event. The counter is a `uint32_t`.
pub get_cq_event : Bool → Channel → Bool × Channel
get_cq_event false ch = (false, ch)
get_cq_event true ch =
    let n = u32 (ch.cq_events_that_need_ack + 1) in
    if n == max_ack_event
    then (true, record { cq_events_that_need_ack = 0; acked = ch.acked + max_ack_event })
    else (true, record ch { cq_events_that_need_ack = n })

-- A work completion; `wr_id` is the pointer to the chunk of the request.
pub record Wc : Type 0 where
  pub wr_id : Chunk
  pub success : Bool
  pub byte_len : ℕ

-- What one call of `ibv_poll_cq` gives: completions, or an error.
pub data Poll : Type 0 where
  got : List Wc → Poll
  failed : Poll

-- CompletionQueue::poll_cq, the completions beside the result.
unfoldable poll_cq : Poll → ℤ × List Wc
poll_cq (got ws) = (pos (length ws), ws)
poll_cq failed = (minus_one, [])
