-- ===== src/Debug/Context.antt =====
-- init_rdma_context and rdma_close_ctx of debug/rdma_socket.c: which resources a context holds.
-- What the verbs library answers is a parameter.
pub mod Ledger
pub mod Tests
use workd.Prelude.{ℕ, suc, Option, none, some, not, Bool, true, false, ◌&&◌, if◌then◌else◌}
use workd.Prelude.Int.{ℤ, pos}

pub record Answers : Type 0 where
  pub calloc : Bool
  pub open_device : Bool
  -- `none` where the call fails, else whether the port is active.
  pub query_port : ℕ → Option Bool
  pub create_comp_channel : Bool
  pub alloc_pd : Bool
  pub create_recv_cq : Bool
  pub create_send_cq : Bool
  pub create_qp : Bool
  pub modify_qp : Bool

-- What exists of the context's resources.
pub record Held : Type 0 where
  pub memory : Bool
  pub device : Bool
  pub channel : Bool
  pub pd : Bool
  pub recv_cq : Bool
  pub send_cq : Bool
  pub qp : Bool

abbrev pub nothing : Held
nothing = record {
  memory = false;
  device = false;
  channel = false;
  pd = false;
  recv_cq = false;
  send_cq = false;
  qp = false;
}

-- The context that the function returns, with the attributes it asked for.
pub record Context : Type 0 where
  pub ib_port : ℕ
  pub has_channel : Bool
  pub cqe : ℕ
  pub max_send_wr : ℕ
  pub max_recv_wr : ℕ

-- The labels, each with those behind it.
clean_ctx : Held → Held
clean_ctx h = record h { memory = false }

clean_device : Held → Held
unfolding clean_ctx
clean_device h = clean_ctx (record h { device = false })

-- A channel to which a completion queue is still attached cannot be destroyed; only `recv_cq` is.
clean_comp_channel : Held → Held
unfolding clean_device
clean_comp_channel h =
    clean_device (if h.channel && not h.recv_cq then record h { channel = false } else h)

clean_pd : Held → Held
unfolding clean_comp_channel
clean_pd h = clean_comp_channel (record h { pd = false })

clean_cq : Held → Held
unfolding clean_pd
clean_cq h = clean_pd (record h { send_cq = false; recv_cq = false })

clean_qp : Held → Held
unfolding clean_cq
clean_qp h = clean_cq (record h { qp = false })

-- The port that is active, of the two: `none` where a query fails or both are down.
unfoldable pub active_port : (ℕ → Option Bool) → Option ℕ
active_port query_port = elim (query_port 1) [
  | none ↦ none
  | some true ↦ some 1
  | some false ↦ elim (query_port 2) [ none ↦ none | some true ↦ some 2 | some false ↦ none ]
]

module _ (a : Answers) (rx_depth : ℕ) where
  abbrev Made : Type 0
  Made = Option Context × Held

  -- From the creation of the queue pair on, and back from there.
  unfoldable pub make_qp : ℕ → Held → Made
  unfolding clean_qp clean_cq
  make_qp port h =
      if a.create_qp
      then (if a.modify_qp
          then (
            some (record {
              ib_port = port;
              has_channel = h.channel;
              cqe = suc rx_depth;
              max_send_wr = 10000;
              max_recv_wr = rx_depth;
            }),
            record h { qp = true },
          )
          else (none, clean_qp (record h { qp = true })))
      else (none, clean_cq h)

  unfoldable pub make_cqs : ℕ → Held → Made
  unfolding make_qp clean_pd
  make_cqs port h =
      let h' = record h { recv_cq = a.create_recv_cq; send_cq = a.create_send_cq } in
      if a.create_recv_cq && a.create_send_cq then make_qp port h' else (none, clean_pd h')

  unfoldable pub make_pd : ℕ → Held → Made
  unfolding make_cqs clean_comp_channel
  make_pd port h =
      if a.alloc_pd then make_cqs port (record h { pd = true }) else (none, clean_comp_channel h)

  unfoldable pub make_channel : Bool → ℕ → Held → Made
  unfolding make_pd clean_device
  make_channel false port h = make_pd port h
  make_channel true port h =
      if a.create_comp_channel
      then make_pd port (record h { channel = true })
      else (none, clean_device h)

  -- The three returns about the ports leave the device open and the memory allocated.
  unfoldable pub init_rdma_context : Bool → Made
  unfolding make_channel clean_ctx
  init_rdma_context use_event =
      if a.calloc
      then (let h = record nothing { memory = true } in
          if a.open_device
          then (let h' = record h { device = true } in
              elim (active_port a.query_port) [
                | none ↦ (none, h')
                | some port ↦ make_channel use_event port h'
              ])
          else (none, clean_ctx h))
      else (none, nothing)

-- Which of the calls of `rdma_close_ctx` fail.
pub record Refusals : Type 0 where
  pub qp : Bool
  pub send_cq : Bool
  pub recv_cq : Bool
  pub pd : Bool
  pub channel : Bool
  pub device : Bool

pub rdma_close_ctx : Refusals → Held → ℤ × Held
rdma_close_ctx f h0 =
    if f.qp
    then (pos 1, h0)
    else let h1 = record h0 { qp = false } in
      if f.send_cq
      then (pos 1, h1)
      else let h2 = record h1 { send_cq = false } in
        if f.recv_cq
        then (pos 1, h2)
        else let h3 = record h2 { recv_cq = false } in
          if f.pd
          then (pos 1, h3)
          else let h4 = record h3 { pd = false } in
            if h4.channel && f.channel
            then (pos 1, h4)
            else let h5 = record h4 { channel = false } in
              if f.device
              then (pos 1, h5)
              else (pos 0, record h5 { device = false; memory = false })
