-- ===== src/Connect/Handshake.antt =====
-- The exchange: class RDMAConnectedSocketImpl's constructor (rdma/RDMAStack.h) and `activate`
-- (rdma/RDMAConnectedSocketImpl.cc), RDMAWorker::connect (rdma/RDMAStack.cc) and
-- RDMAServerSocketImpl::accept (rdma/RDMAServerSocketImpl.cc).
use workd.Prelude.{ℕ, ◌%◌, ◌^◌, Option, none, some, Bool, true, List, [], ◌∷◌, if◌then◌else◌}
use workd.Prelude.Int.{ℤ, pos, minus_one, is_neg, is_zero}
use workd.Prelude.Outcome.{Outcome, ok, fault, spent, ◌>>=◌}
use workd.Wire.Gid.{Gid}
use workd.Wire.Syn.{Syn}
use workd.Wire.Udp.{Datagram, recv_udp_msg, Attempt, send_udp_msg}
use workd.Stack.{setup_client}
use workd.Connect.QueuePair.{
  QpAttr, rtr, rts, Mask, qp_state_bit, av_bit, path_mtu_bit, dest_qpn_bit, rq_psn_bit,
  min_rnr_timer_bit, max_dest_rd_atomic_bit, timeout_bit, retry_cnt_bit, rnr_retry_bit, sq_psn_bit,
  max_qp_rd_atomic_bit, Call, Qp, modify_qp, zero_attr, QueuePair,
}

-- `port` is the Infiniband's physical port.
pub record Socket : Type 0 where
  pub qp : Qp
  pub my_msg : Syn
  pub peer_msg : Syn
  pub port : ℕ
  pub connected : Bool

-- The constructor, from what `create_queue_pair` returned; through a null pointer it faults. A
-- port's LID is 16 bits wide. `unset` is what stands in `connected`, which it does not set.
unfoldable pub open_socket : Option QueuePair → ℕ → Gid → ℕ → Bool → Syn → Outcome Socket
open_socket none lid gid port unset im = fault
open_socket (some q) lid gid port unset im = elim q.qp [
  | none ↦ fault
  | some qp ↦ ok (record {
    qp = qp;
    my_msg = record { lid = lid; qpn = qp.qp_num; psn = q.initial_psn; gid = gid };
    peer_msg = im;
    port = port;
    connected = unset;
  })
]

-- `qpa` at the first call of `ibv_modify_qp`, and at the second. IBV_MTU_1024 is 3.
unfoldable pub rtr_attr : Socket → QpAttr
rtr_attr s = record zero_attr {
  qp_state = rtr;
  path_mtu = 3;
  dest_qp_num = s.peer_msg.qpn;
  rq_psn = s.peer_msg.psn;
  max_dest_rd_atomic = 1;
  min_rnr_timer = 12;
  ah_attr = record {
    is_global = 1;
    hop_limit = 6;
    dgid = s.peer_msg.gid;
    sgid_index = 0;
    dlid = s.peer_msg.lid;
    sl = 0;
    src_path_bits = 0;
    port_num = s.port % 2 ^ 8;
  };
}

unfoldable pub rts_attr : Socket → QpAttr
unfolding rtr_attr
rts_attr s = record (rtr_attr s) {
  qp_state = rts;
  timeout = 14;
  retry_cnt = 7;
  rnr_retry = 7;
  sq_psn = s.my_msg.psn;
  max_rd_atomic = 1;
}

abbrev pub rtr_mask : List Mask
rtr_mask =
    qp_state_bit ∷ av_bit ∷ path_mtu_bit ∷ dest_qpn_bit ∷ rq_psn_bit ∷ min_rnr_timer_bit
    ∷ max_dest_rd_atomic_bit ∷ []

abbrev pub rts_mask : List Mask
rts_mask =
    qp_state_bit ∷ timeout_bit ∷ retry_cnt_bit ∷ rnr_retry_bit ∷ sq_psn_bit ∷ max_qp_rd_atomic_bit
    ∷ []

module _ (takes : List Call → Call → Bool) where
  unfoldable pub activate : Socket → ℤ × Socket
  activate s =
      let (to_rtr, qp) = modify_qp takes s.qp (rtr_attr s, rtr_mask) in
      let (to_rts, qp') = modify_qp takes qp (rts_attr s, rts_mask) in
      if to_rtr
      then (if to_rts
          then (pos 0, record s { qp = qp'; connected = true })
          else (minus_one, record s { qp = qp' }))
      else (minus_one, record s { qp = qp })

  -- From the socket that the constructor made. `setup` is the descriptor that `socket` gives, if it
  -- gives one, and `connects` whether `::connect` succeeds, which changes nothing. The socket is `none`
  -- where the caller's stays unset.
  unfoldable pub connect :
      Option ℕ → Bool → Socket → List Attempt → Datagram → ℕ → Outcome (ℤ × Option Socket)
  unfolding setup_client
  connect setup connects p attempts answer addr = do
    let client_setup_socket = (setup_client setup connects []).0
    (text, r, used) ← send_udp_msg client_setup_socket p.my_msg attempts
    (if is_neg r then ok (r, none) else (do
      got ← recv_udp_msg client_setup_socket answer p.my_msg addr
      (if is_neg got.result
          then ok (got.result, none)
          else (let (r', p') = activate (record p { peer_msg = got.im }) in
              if is_zero r' then ok (pos 0, some p') else fault))))

  -- One round of the loop for each datagram; a call that is not over with them is `spent`. `msg`
  -- is what that variable holds in a round before anything is read, `sd` the member
  -- `server_setup_socket`, `open_server` the
  -- constructor. The result of `activate` is ignored, the text is the answer that went out.
  unfoldable pub accept :
      ℤ
      → (Syn → Outcome Socket)
      → List Datagram
      → List Attempt
      → Syn
      → ℕ
      → Outcome (ℤ × Option (Socket × List ℕ × ℕ))
  accept sd open_server [] attempts msg addr = spent
  accept sd open_server (d ∷ ds) attempts msg addr =
      let rest = accept sd open_server ds attempts msg addr in
      recv_udp_msg sd d msg addr >>= λ got.
      if is_neg got.result
      then ok (minus_one, none)
      else if is_zero got.result
      then (do
        server ← open_server got.im
        (text, r, used) ← send_udp_msg sd server.my_msg attempts
        ok (r, some ((activate server).1, text, got.addr)))
      else rest
