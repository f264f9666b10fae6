-- ===== src/Debug/Setup/Linked.antt =====
-- Two contexts that are created for each other, and one whose set-up goes wrong.
use workd.Prelude.{ℕ, ◌^◌, ◌<◌, ◌≤◌, ◌≡◌, refl, Option, none, some, true, false, List, arith}
use workd.Prelude.Outcome.{Outcome, ok, fault}
use workd.Debug.Context.{Context, init_rdma_context}
use workd.Debug.Verbs.{InitParams}
use workd.Debug.Exchange.{InfoCon, rts_attr}
use workd.Debug.Exchange.Laws.{IsInfo, text, rdma_client_exch_dest_long}
use workd.Debug.Exchange.Paired.{Ends, Takes, moved, client-server}
use workd.Debug.Setup.{
  Machine, find_device, local_mem, local_info, describe, Prepared, prepare, Connected,
  connect_params, finish_client, finish_server, exchange, create_context,
}

-- A side that is ready for the exchange: its own text can be written, and what it reads is
-- `arrives`.
pub record Side (m : Machine) (params : InitParams) (p : Prepared) (arrives : List ℕ) : Type 0 where
  pub prepared : prepare m params ≡ ok (some p)
  pub info_valid : IsInfo p.my_info
  pub lid_small : p.my_info.lid < 2 ^ 16
  pub streams : (m.stream.connects ≡ true) × (m.stream.writes ≡ true)
  pub arrival : m.stream.reads ≡ some arrives
  pub fresh : InfoCon
  pub malloc : m.memory.malloc ≡ some fresh
  pub host : m.memory.host ≡ true

-- What the side ends up with.
abbrev pub linked : Machine → InitParams → Prepared → Prepared → Connected
linked m params p q = record {
  prepared = p;
  remote_info = q.my_info;
  qp = moved m.qp (connect_params params p) q.my_info;
}

-- `create_context` on both sides: if each side comes as far as the exchange, with an info_con of
-- 32-bit numbers, a 16-bit LID, an address of at most 16 digits and a valid GID, is connected,
-- writes its text whole and reads what the other wrote, has memory for the other's info_con and name, and
-- both devices take the two calls that move a queue pair, then both calls return a context whose
-- remote info_con is the other side's own, with the key and the address that it holds, and the
-- queue pairs are set up for each other: each with the other's number, packet sequence number and
-- LID, in RTS.
pub create_context-linked :
    (cm sm : Machine) (cparams sparams : InitParams) (cp sp : Prepared)
    → Side cm cparams cp (text sp.my_info)
    → Side sm sparams sp (text cp.my_info)
    → Takes cm.takes cm.qp (connect_params cparams cp) sp.my_info
    → Takes sm.takes sm.qp (connect_params sparams sp) cp.my_info
    → (create_context cm false cparams ≡ ok (some (linked cm cparams cp sp)))
      × (create_context sm true sparams ≡ ok (some (linked sm sparams sp cp)))
      × Ends
          (rts_attr (connect_params cparams cp) sp.my_info)
          (rts_attr (connect_params sparams sp) cp.my_info)
          cp.my_info
          sp.my_info
unfolding create_context exchange finish_client finish_server
create_context-linked cm sm cparams sparams cp sp c s tc ts =
    let (client, server, connected, both) =
      client-server cm.takes sm.takes cm.stream sm.stream cm.memory sm.memory c.fresh s.fresh cm.qp
        sm.qp (connect_params cparams cp) (connect_params sparams sp) cp.my_info sp.my_info
        c.info_valid s.info_valid c.lid_small s.lid_small c.streams s.streams s.arrival c.arrival
        (c.malloc, s.malloc) s.host (refl, refl) tc ts in
    (
      rw (c.prepared, client, connected, create_context) refl,
      rw (s.prepared, server, create_context) refl,
      both,
    )

describe_unset :
    (m : Machine) (params : InitParams) (ctx : Context) (p : Prepared)
    → params.mem_size ≡ 0
    → describe m params ctx ≡ ok (some p)
    → p.my_info.addr ≡ m.unset.addr
unfolding describe local_mem local_info
describe_unset m params ctx p no_mem e = ground (arith, no_mem, e)

-- What a chain of tests ends with, it ends with by one of its values.
of_some {ℓ κ} :
    {A : Type ℓ} {B : Type κ} (o : Option A) (f : A → Outcome (Option B)) (b : B)
    → elim o [ none ↦ ok none | some a ↦ f a ] ≡ ok (some b)
    → (a : A) × (f a ≡ ok (some b))
of_some none f b e = absurd cc
of_some (some a) f b e = (a, e)

prepare_unset :
    (m : Machine) (params : InitParams) (p : Prepared)
    → params.mem_size ≡ 0
    → prepare m params ≡ ok (some p)
    → p.my_info.addr ≡ m.unset.addr
unfolding prepare
prepare_unset m params p no_mem e =
    let (dev_list, e1) = of_some m.devices _ p e in
    let (ib_dev, e2) = of_some (find_device dev_list params.ib_devname) _ p e1 in
    let (ctx, e3) =
      of_some (init_rdma_context m.answers params.rx_depth params.use_event).0 _ p e2 in
    ground (arith, e3, describe_unset m params ctx p no_mem)

-- Without memory of its own a side prints the address that happened to stand in `my_info`: where
-- the size is 0 and that address has 17 digits or more, a client that has reached its server writes
-- past the end of `msg`.
pub create_context_unset :
    (m : Machine) (params : InitParams) (p : Prepared)
    → prepare m params ≡ ok (some p)
    → params.mem_size ≡ 0
    → 10 ^ 16 ≤ m.unset.addr
    → m.stream.connects ≡ true
    → create_context m false params ≡ fault
unfolding create_context exchange
create_context_unset m params p prepared no_mem long reached =
    rw
      (
        prepared,
        rdma_client_exch_dest_long m.stream m.memory p.my_info reached
            (omega (arith, long, prepare_unset m params p no_mem prepared)),
        create_context,
      )
      refl
