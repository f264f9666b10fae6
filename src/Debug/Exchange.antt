-- ===== src/Debug/Exchange.antt =====
-- debug/rdma_socket.c: struct info_con, its text in rdma_client_exch_dest and
-- rdma_server_exch_dest, "%08x:%08x:%08x:%016lu:%08x:%s" written and "%x:%x:%x:%lu:%x:%s" read, the
-- two functions, and rdma_connect_ctx. What the stream socket does is a parameter.
pub mod Laws
pub mod Paired
use workd.Prelude.{
  ℕ, zero, suc, ◌+◌, ◌-◌, ◌*◌, ◌/◌, ◌%◌, ◌^◌, Option, none, some, Bool, true, false, ◌||◌, ◌&&◌,
  not, List, [], ◌∷◌, ◌++◌, ◌==◌, ltb, leb, length, u32, if◌then◌else◌,
}
use workd.Prelude.Int.{ℤ, pos, negsuc, is_zero}
use workd.Prelude.Outcome.{Outcome, ok, fault, ◌>>=◌}
use workd.Text.{print, string_at}
use workd.Text.Fields.{Scanned, scan_gid, scan_num}
use workd.Wire.Gid.{Gid, gid_to_wire_gid, wire_gid_to_gid}
use workd.Connect.QueuePair.{
  QpAttr, AhAttr, rtr, rts, Mask, qp_state_bit, av_bit, path_mtu_bit, dest_qpn_bit, rq_psn_bit,
  min_rnr_timer_bit, max_dest_rd_atomic_bit, timeout_bit, retry_cnt_bit, rnr_retry_bit, sq_psn_bit,
  max_qp_rd_atomic_bit, Call, Qp, modify_qp, zero_attr,
}

pub record InfoCon : Type 0 where
  pub lid : ℕ
  pub qpn : ℕ
  pub psn : ℕ
  pub rkey : ℕ
  pub addr : ℕ
  pub gid : Gid

-- The five numbers, and what stands behind them.
abbrev pub numbers : InfoCon → List ℕ → List ℕ
numbers im rest =
    print 16 8 im.lid
    ++ (58
        ∷ (print 16 8 im.qpn
            ++ (58
                ∷ (print 16 8 im.psn
                    ++ (58
                        ∷ (print 10 16 im.addr ++ (58 ∷ (print 16 8 im.rkey ++ (58 ∷ rest)))))))))

-- sizeof msg
abbrev pub msg_size : ℕ
msg_size = 86

-- What sprintf leaves in `msg`: a longer text is written past its end.
unfoldable pub sprint_info : InfoCon → Outcome (List ℕ)
sprint_info im =
    let msg = numbers im (gid_to_wire_gid im.gid ++ (0 ∷ [])) in
    if leb (length msg) msg_size then ok msg else fault

-- %lu: a number that is too large gives the largest.
abbrev pub ulong : ℕ → ℕ
ulong v = if ltb v (2 ^ 64) then v else 2 ^ 64 - 1

abbrev pub scan_rkey : List ℕ → Scanned InfoCon → Outcome (Scanned InfoCon)
scan_rkey s a = scan_num 16 (λ v im. record im { rkey = u32 v }) scan_gid s a

abbrev pub scan_addr : List ℕ → Scanned InfoCon → Outcome (Scanned InfoCon)
scan_addr s a = scan_num 10 (λ v im. record im { addr = ulong v }) scan_rkey s a

abbrev pub scan_psn : List ℕ → Scanned InfoCon → Outcome (Scanned InfoCon)
scan_psn s a = scan_num 16 (λ v im. record im { psn = u32 v }) scan_addr s a

abbrev pub scan_qpn : List ℕ → Scanned InfoCon → Outcome (Scanned InfoCon)
scan_qpn s a = scan_num 16 (λ v im. record im { qpn = u32 v }) scan_psn s a

-- sscanf into what malloc returned and `gid`; with no NUL in `msg` it reads past the end.
pub scan_info : List ℕ → Scanned InfoCon → Outcome (Scanned InfoCon)
scan_info msg a = elim (string_at msg) [
  | none ↦ fault
  | some s ↦ scan_num 16 (λ v im. record im { lid = u32 v }) scan_qpn s a
]

-- The memory that the code may read before it is set: what malloc returned, `gid`, and `v32` of
-- `wire_gid_to_gid`. `none` is a failed malloc. `host` is whether malloc gives the server memory for
-- the name of its peer.
pub record Memory : Type 0 where
  pub malloc : Option InfoCon
  pub gid : List ℕ
  pub v32 : ℕ
  pub host : Bool

-- The scan with the conversion of the GID behind it.
pub read_info : List ℕ → InfoCon → Memory → Outcome InfoCon
unfolding scan_info
read_info msg fresh m = do
  (im, gid) ← scan_info msg (fresh, m.gid)
  ok (record im { gid = wire_gid_to_gid gid m.v32 })

-- What a stream socket does in the exchange: whether there is a connection, whether the text is
-- written whole, and the bytes of a read that brought as many as `msg` has.
pub record Stream : Type 0 where
  pub connects : Bool
  pub writes : Bool
  pub reads : Option (List ℕ)

-- The remote side, or a null pointer, and the text that was written.
abbrev pub Exchanged : Type 0
Exchanged = Option InfoCon × Option (List ℕ)

pub read_reply : Memory → List ℕ → Outcome (Option InfoCon)
unfolding read_info
read_reply m msg = elim m.malloc [
  | none ↦ ok none
  | some fresh ↦ read_info msg fresh m >>= λ im. ok (some im)
]

-- The client's `gid` has its own text.
pub rdma_client_exch_dest : Stream → Memory → InfoCon → Outcome Exchanged
unfolding read_reply
rdma_client_exch_dest s m my_info =
    if s.connects
    then (sprint_info my_info >>= λ msg.
        if s.writes
        then elim s.reads [
          | none ↦ ok (none, some msg)
          | some reply ↦
              read_reply (record m { gid = gid_to_wire_gid my_info.gid ++ (0 ∷ []) }) reply >>= λ r.
              ok (r, some msg)
        ]
        else ok (none, none))
    else ok (none, none)

-- An `int` in a `uint8_t`.
abbrev to_byte : ℤ → ℕ
to_byte (pos n) = n % 2 ^ 8
to_byte (negsuc n) = 255 - n % 2 ^ 8

-- `attr` of rdma_connect_ctx at the first call of `ibv_modify_qp`, and at the second.
-- `interface_id` is the second half of the GID, and the numbers of the address are `uint8_t` and
-- `uint16_t`.
pub ah_attr : ℕ → ℕ → ℤ → InfoCon → AhAttr
ah_attr port sl sgid_idx dest =
    let plain = record zero_attr.ah_attr {
      dlid = dest.lid % 2 ^ 16;
      sl = sl % 2 ^ 8;
      port_num = port % 2 ^ 8;
    } in
    if dest.gid.w2 == 0 && dest.gid.w3 == 0 then plain else record plain {
      is_global = 1;
      hop_limit = 1;
      dgid = dest.gid;
      sgid_index = to_byte sgid_idx;
    }

-- What the caller sets up a connection with.
pub record Params : Type 0 where
  pub ib_port : ℕ
  pub my_psn : ℕ
  pub mtu : ℕ
  pub sl : ℕ
  pub gidx : ℤ

pub rtr_attr : Params → InfoCon → QpAttr
unfolding ah_attr
rtr_attr p dest = record zero_attr {
  qp_state = rtr;
  path_mtu = p.mtu;
  dest_qp_num = dest.qpn;
  rq_psn = dest.psn;
  max_dest_rd_atomic = 1;
  min_rnr_timer = 12;
  ah_attr = ah_attr p.ib_port p.sl p.gidx dest;
}

pub rts_attr : Params → InfoCon → QpAttr
unfolding rtr_attr
rts_attr p dest = record (rtr_attr p dest) {
  qp_state = rts;
  timeout = 14;
  retry_cnt = 7;
  rnr_retry = 7;
  sq_psn = p.my_psn;
  max_rd_atomic = 1;
}

abbrev pub rtr_mask : List Mask
rtr_mask =
    qp_state_bit ∷ av_bit ∷ path_mtu_bit ∷ dest_qpn_bit ∷ rq_psn_bit ∷ max_dest_rd_atomic_bit
    ∷ min_rnr_timer_bit ∷ []

abbrev pub rts_mask : List Mask
rts_mask =
    qp_state_bit ∷ timeout_bit ∷ retry_cnt_bit ∷ rnr_retry_bit ∷ sq_psn_bit ∷ max_qp_rd_atomic_bit
    ∷ []

module _ (takes : List Call → Call → Bool) where
  pub rdma_connect_ctx : Qp → Params → InfoCon → ℤ × Qp
  unfolding modify_qp
  rdma_connect_ctx qp p dest =
      let (first_taken, qp1) = modify_qp takes qp (rtr_attr p dest, rtr_mask) in
      if first_taken
      then (let (second_taken, qp2) = modify_qp takes qp1 (rts_attr p dest, rts_mask) in
          (if second_taken then pos 0 else pos 1, qp2))
      else (pos 1, qp1)

  -- From the reading of the client's text on: the queue pair is moved before the answer is
  -- written. What the last read brings is not looked at.
  serve : Stream → Qp → Params → InfoCon → InfoCon → Outcome (Exchanged × Qp)
  unfolding rdma_connect_ctx
  serve s qp p my_info remote_info =
      let (r, qp') = rdma_connect_ctx qp p remote_info in
      if is_zero r
      then (sprint_info my_info >>= λ msg.
          ok (if s.writes then (some remote_info, some msg) else (none, none), qp'))
      else ok ((none, none), qp')

  -- The peer's name is copied, through a null pointer where malloc failed, before the result of accept
  -- is looked at; the name itself is left out.
  pub rdma_server_exch_dest : Stream → Memory → Qp → Params → InfoCon → Outcome (Exchanged × Qp)
  unfolding read_reply serve
  rdma_server_exch_dest s m qp p my_info =
      if m.host
      then (if s.connects
          then elim s.reads [
            | none ↦ ok ((none, none), qp)
            | some msg ↦ read_reply m msg >>= λ r. elim r [
              | none ↦ ok ((none, none), qp)
              | some remote_info ↦ serve s qp p my_info remote_info
            ]
          ]
          else ok ((none, none), qp))
      else fault
