-- ===== src/Connect/QueuePair.antt =====
-- Queue pairs: QueuePair::QueuePair, QueuePair::init, ~QueuePair and Infiniband::create_queue_pair of
-- rdma/Infiniband.cc. The device is a parameter: which calls it takes.
pub mod Opened
use workd.Prelude.{
  ℕ, ◌%◌, ◌^◌, Option, none, some, not, Bool, true, false, List, [], ◌∷◌, ◌++◌, if◌then◌else◌,
}
use workd.Prelude.Int.{ℤ, pos, minus_one, is_zero}
use workd.Prelude.Outcome.{Outcome, ok, fault, ◌>>=◌}
use workd.Completion.Create.{
  live, dead, destroy, ChannelAnswers, QueueAnswers, create_comp_channel, create_comp_queue,
}
use workd.Wire.Gid.{Gid}

pub data QpType : Type 0 where
  rc ud raw_packet other_type : QpType

pub data QpState : Type 0 where
  reset init_state rtr rts : QpState

-- The bits of the mask of `ibv_modify_qp`.
pub data Mask : Type 0 where
  qp_state_bit pkey_index_bit port_bit access_flags_bit qkey_bit av_bit path_mtu_bit : Mask
  dest_qpn_bit rq_psn_bit min_rnr_timer_bit max_dest_rd_atomic_bit : Mask
  timeout_bit retry_cnt_bit rnr_retry_bit sq_psn_bit max_qp_rd_atomic_bit : Mask

pub record AhAttr : Type 0 where
  pub is_global : ℕ
  pub hop_limit : ℕ
  pub dgid : Gid
  pub sgid_index : ℕ
  pub dlid : ℕ
  pub sl : ℕ
  pub src_path_bits : ℕ
  pub port_num : ℕ

-- `ibv_qp_attr`, as far as the code sets it.
pub record QpAttr : Type 0 where
  pub qp_state : QpState
  pub pkey_index : ℕ
  pub port_num : ℕ
  pub qp_access_flags : ℕ
  pub qkey : ℕ
  pub path_mtu : ℕ
  pub dest_qp_num : ℕ
  pub rq_psn : ℕ
  pub max_dest_rd_atomic : ℕ
  pub min_rnr_timer : ℕ
  pub ah_attr : AhAttr
  pub timeout : ℕ
  pub retry_cnt : ℕ
  pub rnr_retry : ℕ
  pub sq_psn : ℕ
  pub max_rd_atomic : ℕ

abbrev pub zero_gid : Gid
zero_gid = record { w0 = 0; w1 = 0; w2 = 0; w3 = 0 }

-- What memset leaves.
abbrev pub zero_attr : QpAttr
zero_attr = record {
  qp_state = reset;
  pkey_index = 0;
  port_num = 0;
  qp_access_flags = 0;
  qkey = 0;
  path_mtu = 0;
  dest_qp_num = 0;
  rq_psn = 0;
  max_dest_rd_atomic = 0;
  min_rnr_timer = 0;
  ah_attr = record {
    is_global = 0;
    hop_limit = 0;
    dgid = zero_gid;
    sgid_index = 0;
    dlid = 0;
    sl = 0;
    src_path_bits = 0;
    port_num = 0;
  };
  timeout = 0;
  retry_cnt = 0;
  rnr_retry = 0;
  sq_psn = 0;
  max_rd_atomic = 0;
}

-- A call of `ibv_modify_qp`; `takes` is whether the device takes it after those that it took.
abbrev pub Call : Type 0
Call = QpAttr × List Mask

-- The queue pair's number, and the calls that it took.
pub record Qp : Type 0 where
  pub qp_num : ℕ
  pub calls : List Call

-- A call that the device refuses changes nothing, and the result is not 0.
unfoldable pub modify_qp : (List Call → Call → Bool) → Qp → Call → Bool × Qp
modify_qp takes qp c =
    if takes qp.calls c then (true, record qp { calls = qp.calls ++ c ∷ [] }) else (false, qp)

-- `ibv_qp_init_attr`; the handles are numbers.
pub record InitAttr : Type 0 where
  pub send_cq : ℕ
  pub recv_cq : ℕ
  pub srq : ℕ
  pub max_send_wr : ℕ
  pub max_send_sge : ℕ
  pub max_inline_data : ℕ
  pub qp_type : QpType
  pub sq_sig_all : ℕ

-- `txcq` and `rxcq` may be null pointers. `destroyed` says that the queue pair is gone although `qp` still
-- points to it.
pub record QueuePair : Type 0 where
  pub type : QpType
  pub ib_physical_port : ℕ
  pub srq : ℕ
  pub txcq : Option ℕ
  pub rxcq : Option ℕ
  pub initial_psn : ℕ
  pub max_send_wr : ℕ
  pub max_recv_wr : ℕ
  pub q_key : ℕ
  pub qp : Option Qp
  pub destroyed : Bool

-- The constructor; `random` is what lrand48 gave. An unknown type fails the assertion.
pub make : QpType → ℕ → ℕ → Option ℕ → Option ℕ → ℕ → ℕ → ℕ → ℕ → Outcome QueuePair
make other_type port srq txcq rxcq max_send_wr max_recv_wr q_key random = fault
make type port srq txcq rxcq max_send_wr max_recv_wr q_key random = ok (record {
  type = type;
  ib_physical_port = port;
  srq = srq;
  txcq = txcq;
  rxcq = rxcq;
  initial_psn = random % 2 ^ 24;
  max_send_wr = max_send_wr;
  max_recv_wr = max_recv_wr;
  q_key = q_key;
  qp = none;
  destroyed = false;
})

-- The switch; the default fails the assertion.
unfoldable init_mask : QpType → Outcome (List Mask)
init_mask rc = ok (qp_state_bit ∷ port_bit ∷ access_flags_bit ∷ pkey_index_bit ∷ [])
init_mask ud = ok (qp_state_bit ∷ port_bit ∷ qkey_bit ∷ pkey_index_bit ∷ [])
init_mask raw_packet = ok (qp_state_bit ∷ port_bit ∷ [])
init_mask other_type = fault

-- IBV_ACCESS_REMOTE_WRITE | IBV_ACCESS_LOCAL_WRITE is 3, the port a `uint8_t`.
unfoldable init_attr : QueuePair → QpAttr
init_attr q = record zero_attr {
  qp_state = init_state;
  port_num = q.ib_physical_port % 2 ^ 8;
  qp_access_flags = 3;
  qkey = q.q_key;
}

-- What `create_queue_pair` reads of the Infiniband and its worker, what the creation of the channel
-- and the queue meets, and the queue's handle. The worker's `tx_cq` is a null pointer where its
-- `initialize` could not create the queue.
pub record Site : Type 0 where
  pub channel : ChannelAnswers
  pub queue : QueueAnswers
  pub cq : ℕ
  pub ib_physical_port : ℕ
  pub srq : ℕ
  pub tx_cq : Option ℕ
  pub max_send_wr : ℕ
  pub max_recv_wr : ℕ
  pub max_inline_data : ℕ
  pub random : ℕ

module _ (create : InitAttr → Option ℕ) (takes : List Call → Call → Bool) where
  -- The part of `init` behind `ibv_create_qp`. Where the device refuses, the queue pair is
  -- destroyed.
  init_created : QueuePair → Qp → Outcome (ℤ × QueuePair)
  init_created q qp = do
    mask ← init_mask q.type
    (let (taken, qp') = modify_qp takes qp (init_attr q, mask) in
        ok (if taken then pos 0 else minus_one, record q { qp = some qp'; destroyed = not taken }))

  -- QueuePair::init; through a null `txcq` or `rxcq` it faults. `max_inline_data` is the Infiniband's.
  pub init : ℕ → QueuePair → Outcome (ℤ × QueuePair)
  unfolding init_created
  init max_inline_data q = elim q.txcq [
    | none ↦ fault
    | some send_cq ↦ elim q.rxcq [
      | none ↦ fault
      | some recv_cq ↦
          elim (create (record {
            send_cq = send_cq;
            recv_cq = recv_cq;
            srq = q.srq;
            max_send_wr = q.max_send_wr;
            max_send_sge = 1;
            max_inline_data = max_inline_data;
            qp_type = q.type;
            sq_sig_all = 0;
          })) [
            | none ↦ ok (minus_one, q)
            | some n ↦ init_created q (record { qp_num = n; calls = [] })
          ]
    ]
  ]

  -- ~QueuePair, which asserts that the queue pair can be destroyed.
  delete_pair : QueuePair → Outcome (Unit {0})
  delete_pair q = elim q.qp [
    | none ↦ ok tt
    | some qp ↦ destroy true (if q.destroyed then dead else live)
  ]

  -- A null pointer is `none`. With no completion queue the channel is destroyed, and the code goes
  -- on.
  pub create_queue_pair : Site → QpType → Outcome (Option QueuePair)
  unfolding init init_mask init_attr delete_pair
  create_queue_pair s type = do
    cc ← create_comp_channel s.channel
    (elim cc [
      | none ↦ ok none
      | some channel ↦ do
        cq ← create_comp_queue (some channel) s.queue
        q ←
            make type s.ib_physical_port s.srq s.tx_cq
              (elim cq [ none ↦ none | some p ↦ some s.cq ]) s.max_send_wr s.max_recv_wr 0 s.random
        (r, q') ← init s.max_inline_data q
        (if is_zero r then ok (some q') else delete_pair q' >>= λ _. ok none)
    ])
