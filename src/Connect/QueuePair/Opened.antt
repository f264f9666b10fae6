-- ===== src/Connect/QueuePair/Opened.antt =====
-- The socket that a new queue pair gives.
use workd.Prelude.{
  ◌&&◌, if◌then◌else◌, ℕ, ◌%◌, ◌^◌, ◌≡◌, none, some, Option, Bool, false, List, [], ◌∷◌, arith,
}
use workd.Prelude.Outcome.{Outcome, ok, fault}
use workd.Prelude.Int.{is_zero}
use workd.Completion.Create.{set_nonblocking, destroy, create_comp_channel, create_comp_queue}
use workd.Connect.QueuePair
use workd.Connect.QueuePair.{
  rc, init_state, zero_attr, Mask, qp_state_bit, port_bit, access_flags_bit, pkey_index_bit, Call,
  InitAttr, Site, make, init_attr, init_mask, init_created, init, modify_qp, create_queue_pair,
  delete_pair,
}

-- The attributes that `init` asks for at a site.
abbrev pub asked : Site → ℕ → ℕ → InitAttr
asked s send_cq recv_cq = record {
  send_cq = send_cq;
  recv_cq = recv_cq;
  srq = s.srq;
  max_send_wr = s.max_send_wr;
  max_send_sge = 1;
  max_inline_data = s.max_inline_data;
  qp_type = rc;
  sq_sig_all = 0;
}

-- The call that brings it to INIT.
abbrev pub to_init : Site → Call
to_init s = (
  record zero_attr {
    qp_state = init_state;
    port_num = s.ib_physical_port % 2 ^ 8;
    qp_access_flags = 3;
  },
  qp_state_bit ∷ port_bit ∷ access_flags_bit ∷ pkey_index_bit ∷ [],
)

-- The queue pair that comes of a call.
abbrev pub opened : Site → ℕ → QueuePair.QueuePair
opened s n = record {
  type = rc;
  ib_physical_port = s.ib_physical_port;
  srq = s.srq;
  txcq = s.tx_cq;
  rxcq = some s.cq;
  initial_psn = s.random % 2 ^ 24;
  max_send_wr = s.max_send_wr;
  max_recv_wr = s.max_recv_wr;
  q_key = 0;
  qp = some (record { qp_num = n; calls = to_init s ∷ [] });
  destroyed = false;
}

abbrev pub expected :
    (InitAttr → Option ℕ) → (List Call → Call → Bool) → Site → Outcome (Option QueuePair.QueuePair)
expected create takes s =
    if s.channel.created
    then (if is_zero (set_nonblocking s.channel.flags s.channel.takes_flags)
          && (s.queue.created && s.queue.notified)
        then (elim s.tx_cq [
          | none ↦ fault
          | some send_cq ↦ elim (create (asked s send_cq s.cq)) [
            | none ↦ ok none
            | some n ↦ if takes [] (to_init s) then ok (some (opened s n)) else fault
          ]
        ])
        else fault)
    else ok none

-- `create_queue_pair` for a reliable connection returns the queue pair, moved to INIT on the port
-- by one call and with the low 24 bits of the random number as its packet sequence number, where
-- every step succeeds. It returns a null pointer only where the channel or the queue pair cannot be
-- created. Every failure behind the creation of an object faults: where the channel's file, the
-- notification or the transition to INIT is refused, the object is destroyed twice (of the
-- transition the comment above the function says that it gives a null pointer), and where the
-- completion queue could not be created, here or by the worker for sending, it is used through a
-- null pointer.
pub create_queue_pair_lem :
    (create : InitAttr → Option ℕ) (takes : List Call → Call → Bool) (s : Site)
    → create_queue_pair create takes s rc ≡ expected create takes s
unfolding create_queue_pair init init_created init_mask init_attr make modify_qp delete_pair
    create_comp_channel create_comp_queue destroy set_nonblocking
create_queue_pair_lem create takes s = ground arith
