-- ===== src/Debug/Context/Ledger.antt =====
-- What a context holds after it has been made, and after it has been closed.
use workd.Prelude.{
  ℕ, suc, ◌≡◌, ◌⊎◌, inl, inr, none, some, Bool, true, false, ◌&&◌, ◌||◌, if◌then◌else◌, arith,
  Option-cases,
}
use workd.Prelude.Int.{pos}
use workd.Debug.Context.{
  make_channel, make_pd, make_cqs, make_qp, clean_ctx, clean_device, clean_comp_channel, clean_pd,
  clean_cq, clean_qp, Answers, Held, nothing, Context, active_port, init_rdma_context, Refusals,
  rdma_close_ctx,
}

-- Everything, with a channel or without.
abbrev pub everything : Bool → Held
everything channel = record {
  memory = true;
  device = true;
  channel = channel;
  pd = true;
  recv_cq = true;
  send_cq = true;
  qp = true;
}

-- A failed call's leftovers: the memory and the device where no active port was found, and a
-- completion queue whose twin could not be made, that for receiving with its channel.
abbrev pub left_behind : Answers → Bool → Held
left_behind a use_event =
    if a.calloc && a.open_device
    then (elim (active_port a.query_port) [
      | none ↦ record nothing { memory = true; device = true }
      | some port ↦
          if a.alloc_pd && (if use_event then a.create_comp_channel else true)
          then (if a.create_recv_cq && a.create_send_cq then nothing else record nothing {
            channel = use_event && a.create_recv_cq;
            recv_cq = a.create_recv_cq;
            send_cq = a.create_send_cq;
          })
          else nothing
    ])
    else nothing

-- The context of a successful call.
abbrev pub context : ℕ → Bool → ℕ → Context
context rx_depth use_event port = record {
  ib_port = port;
  has_channel = use_event;
  cqe = suc rx_depth;
  max_send_wr = 10000;
  max_recv_wr = rx_depth;
}

with_port :
    (a : Answers) (rx_depth port : ℕ) (use_event : Bool)
    → active_port a.query_port ≡ some port
    → let (r, h) = init_rdma_context a rx_depth use_event in
      ((r ≡ some (context rx_depth use_event port)) × (h ≡ everything use_event))
      ⊎ ((r ≡ none) × (h ≡ left_behind a use_event))
unfolding init_rdma_context make_channel make_pd make_cqs make_qp clean_ctx clean_device
    clean_comp_channel clean_pd clean_cq clean_qp
with_port a rx_depth port false up = ground arith
with_port a rx_depth port true up = ground arith

-- `init_rdma_context` returns a context on an active port that holds every resource, or none.
-- Where it returns none, what it leaves behind is `left_behind`: nothing, but for the memory and
-- the device where no active port was found, and a completion queue whose twin could not be made;
-- if that is the one for receiving, the channel to which it is attached, if there is one, is left
-- behind as well.
pub init_rdma_context_lem :
    (a : Answers) (rx_depth : ℕ) (use_event : Bool)
    → let (r, h) = init_rdma_context a rx_depth use_event in
      ((port : ℕ) × (active_port a.query_port ≡ some port)
        × (r ≡ some (context rx_depth use_event port))
        × (h ≡ everything use_event))
      ⊎ ((r ≡ none) × (h ≡ left_behind a use_event))
unfolding init_rdma_context make_channel make_pd make_cqs make_qp clean_ctx clean_device
    clean_comp_channel clean_pd clean_cq clean_qp
init_rdma_context_lem a rx_depth use_event = elim (Option-cases (active_port a.query_port)) [
  | inl down ↦ inr (ground arith)
  | inr (port, up) ↦ elim (with_port a rx_depth port use_event up) [
    | inl (made, all) ↦ inl (port, up, made, all)
    | inr leak ↦ inr leak
  ]
]

-- Whether a call for a context with a channel, or without, is refused.
abbrev refuses : Refusals → Bool → Bool
refuses f channel =
    f.qp || (f.send_cq || (f.recv_cq || (f.pd || ((channel && f.channel) || f.device))))

-- A context that `init_rdma_context` made is closed whole: if no call is refused the result is 0
-- and nothing of it is held any more, whether it has a channel or not. If one is, the result is 1
-- and the memory and the device are still held.
pub rdma_close_ctx-init_rdma_context :
    (a : Answers) (rx_depth : ℕ) (use_event : Bool) (c : Context) (f : Refusals)
    → (init_rdma_context a rx_depth use_event).0 ≡ some c
    → let (r, h) = rdma_close_ctx f (init_rdma_context a rx_depth use_event).1 in
      if refuses f use_event
      then (r ≡ pos 1) × (h.memory ≡ true) × (h.device ≡ true)
      else (r ≡ pos 0) × (h ≡ nothing)
unfolding rdma_close_ctx
rdma_close_ctx-init_rdma_context a rx_depth use_event c f e =
    elim (init_rdma_context_lem a rx_depth use_event) [
      | inr (n, _) ↦ cc
      | inl (port, _, _, all) ↦ rw (all, rdma_close_ctx) (all_closed use_event f)
    ]
  where
    all_closed :
        (use_event : Bool) (f : Refusals)
        → let (r, h) = rdma_close_ctx f (everything use_event) in
          if refuses f use_event
          then (r ≡ pos 1) × (h.memory ≡ true) × (h.device ≡ true)
          else (r ≡ pos 0) × (h ≡ nothing)
    all_closed true f = ground arith
    all_closed false f = ground arith
