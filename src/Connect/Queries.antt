-- ===== src/Connect/Queries.antt =====
-- The queries of class QueuePair of rdma/Infiniband.h. What `ibv_query_qp` answers is a parameter,
-- `none` where it fails.
use workd.Prelude.{ℕ, ◌%◌, ◌^◌, Option, none, some, Bool, true, ◌==◌, if◌then◌else◌}
use workd.Prelude.Int.{ℤ, pos, minus_one}

-- `ibv_qp_attr` as far as the queries read it; a state is its number.
pub record Answer : Type 0 where
  pub qp_state : ℕ
  pub cur_qp_state : ℕ
  pub dest_qp_num : ℕ
  pub dlid : ℕ

-- The result, and what is stored through `rqp`, which may be null.
unfoldable get_remote_qp_number : Option Answer → Bool → ℤ × Option ℕ
get_remote_qp_number none rqp = (minus_one, none)
get_remote_qp_number (some qpa) rqp = (pos 0, if rqp then some qpa.dest_qp_num else none)

unfoldable get_remote_lid : Option Answer → Bool → ℤ × Option ℕ
get_remote_lid none lid = (minus_one, none)
get_remote_lid (some qpa) lid = (pos 0, if lid then some (qpa.dlid % 2 ^ 16) else none)

unfoldable get_state : Option Answer → ℤ
get_state none = minus_one
get_state (some qpa) = pos qpa.qp_state

-- IBV_QPS_ERR is 6.
unfoldable is_error : Option Answer → Bool
is_error none = true
is_error (some qpa) = qpa.cur_qp_state == 6
