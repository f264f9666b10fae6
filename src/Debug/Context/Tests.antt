-- ===== src/Debug/Context/Tests.antt =====
-- The theorems about contexts at concrete inputs.
use workd.Prelude.{ℕ, ◌≡◌, refl, false, true, some, none, ◌⊎◌}
use workd.Prelude.Int.{pos}
use workd.Debug.Context.{
  Answers, Refusals, nothing, active_port, make_channel, make_pd, make_cqs, make_qp,
  init_rdma_context, rdma_close_ctx,
}
use workd.Debug.Context.Ledger.{
  everything, left_behind, context, init_rdma_context_lem, rdma_close_ctx-init_rdma_context,
}

abbrev answers : Answers
answers = record {
  calloc = true;
  open_device = true;
  query_port = λ p. some true;
  create_comp_channel = true;
  alloc_pd = true;
  create_recv_cq = true;
  create_send_cq = true;
  create_qp = true;
  modify_qp = true;
}

abbrev granted : Refusals
granted = record {
  qp = false;
  send_cq = false;
  recv_cq = false;
  pd = false;
  channel = false;
  device = false;
}

init_rdma_context_lem_example :
    let (r, h) = init_rdma_context answers 7 true in
    ((port : ℕ) × (active_port (λ p. some true) ≡ some port)
      × (r ≡ some (context 7 true port))
      × (h ≡ everything true))
    ⊎ ((r ≡ none) × (h ≡ left_behind answers true))
init_rdma_context_lem_example = init_rdma_context_lem answers 7 true

rdma_close_ctx-init_rdma_context_example :
    let (r, h) = rdma_close_ctx granted (init_rdma_context answers 7 true).1 in
    (r ≡ pos 0) × (h ≡ nothing)
unfolding init_rdma_context make_channel make_pd make_cqs make_qp active_port
rdma_close_ctx-init_rdma_context_example =
    rdma_close_ctx-init_rdma_context answers 7 true (context 7 true 1) granted refl
