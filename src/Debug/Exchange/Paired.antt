-- ===== src/Debug/Exchange/Paired.antt =====
-- The two sides of an exchange, and what their queue pairs are then set up with.
use mathlib.Core.List.{append_assoc}
use workd.Prelude.{
  ◌^◌, ◌<◌, ◌≡◌, refl, sym, some, Bool, true, Bool-cases, inl, inr, ◌&&◌, ◌==◌, List, [], ◌∷◌, ◌++◌,
  arith,
}
use workd.Prelude.Int.{pos}
use workd.Prelude.Outcome.{ok}
use workd.Wire.Gid.{gid_to_wire_gid}
use workd.Connect.QueuePair.{QpAttr, rts, Call, Qp, modify_qp}
use workd.Debug.Exchange.{
  InfoCon, Memory, Stream, read_reply, Params, ah_attr, rtr_attr, rts_attr, rtr_mask, rts_mask,
  rdma_connect_ctx, rdma_client_exch_dest, serve, rdma_server_exch_dest,
}
use workd.Debug.Exchange.Laws.{IsInfo, text, sprint_info_lem, read_info-text}

-- The two calls that bring a queue pair from INIT to RTS, and a device that takes them.
abbrev pub plumbing : Params → InfoCon → List Call
plumbing p dest = (rtr_attr p dest, rtr_mask) ∷ (rts_attr p dest, rts_mask) ∷ []

abbrev pub Takes : (List Call → Call → Bool) → Qp → Params → InfoCon → Type 0
Takes takes qp p dest =
    (takes qp.calls (rtr_attr p dest, rtr_mask) ≡ true)
    × (takes (qp.calls ++ (rtr_attr p dest, rtr_mask) ∷ []) (rts_attr p dest, rts_mask) ≡ true)

abbrev pub moved : Qp → Params → InfoCon → Qp
moved qp p dest = record qp { calls = qp.calls ++ plumbing p dest }

rdma_connect_ctx-Takes :
    (takes : List Call → Call → Bool) (qp : Qp) (p : Params) (dest : InfoCon)
    → Takes takes qp p dest
    → rdma_connect_ctx takes qp p dest ≡ (pos 0, moved qp p dest)
unfolding rdma_connect_ctx modify_qp
rdma_connect_ctx-Takes takes qp p dest h = rw (h.0, h.1, rdma_connect_ctx) (rw append_assoc)

-- Two ends that are set up for each other: what one sends from, the other expects.
pub record Ends (a b : QpAttr) (ai bi : InfoCon) : Type 0 where
  pub states : (a.qp_state ≡ rts) × (b.qp_state ≡ rts)
  pub numbers : (a.dest_qp_num ≡ bi.qpn) × (b.dest_qp_num ≡ ai.qpn)
  pub sequence : (a.rq_psn ≡ b.sq_psn) × (b.rq_psn ≡ a.sq_psn)
  pub addresses : (a.ah_attr.dlid ≡ bi.lid) × (b.ah_attr.dlid ≡ ai.lid)

dlid_lem : (p : Params) (i : InfoCon) → i.lid < 2 ^ 16 → (rts_attr p i).ah_attr.dlid ≡ i.lid
unfolding rts_attr rtr_attr ah_attr
dlid_lem p i h = elim (Bool-cases (i.gid.w2 == 0 && i.gid.w3 == 0)) [
  | inl e ↦ rw e (omega arith)
  | inr e ↦ rw e (omega arith)
]

read_reply-text :
    (im fresh : InfoCon) (m : Memory)
    → IsInfo im
    → m.malloc ≡ some fresh
    → read_reply m (text im) ≡ ok (some im)
unfolding read_reply
read_reply-text im fresh m v e = rw (e, read_info-text im fresh m v, read_reply) refl

ends :
    (cp sp : Params) (c s : InfoCon)
    → c.lid < 2 ^ 16
    → s.lid < 2 ^ 16
    → cp.my_psn ≡ c.psn
    → sp.my_psn ≡ s.psn
    → Ends (rts_attr cp s) (rts_attr sp c) c s
unfolding rts_attr rtr_attr
ends cp sp c s lc ls ec es = record {
  states = (refl, refl);
  numbers = (refl, refl);
  sequence = (sym es, sym ec);
  addresses = (dlid_lem cp s ls, dlid_lem sp c lc);
}

serve-Takes :
    (takes : List Call → Call → Bool) (s : Stream) (qp : Qp) (p : Params) (my_info dest : InfoCon)
    → IsInfo my_info
    → s.writes ≡ true
    → Takes takes qp p dest
    → serve takes s qp p my_info dest ≡ ok ((some dest, some (text my_info)), moved qp p dest)
unfolding serve
serve-Takes takes s qp p my_info dest v w t =
    rw (rdma_connect_ctx-Takes takes qp p dest t, sprint_info_lem my_info v, w, serve) refl

-- The exchange over a stream socket: if both info_cons have fields of their widths, addresses of at
-- most 16 digits and LIDs of 16 bits, each side reads what the other wrote, the allocations succeed
-- and both devices take the two calls, then the client writes its text and gets the server's
-- info_con, the server gets the client's and writes its own, remote key and buffer address
-- included, both queue pairs are moved by the two calls, and each is set up with the number, packet
-- sequence number and LID of the other.
pub client-server :
    (takes takes' : List Call → Call → Bool) (cs ss : Stream) (cm sm : Memory) (cf sf : InfoCon)
    (cq sq : Qp) (cp sp : Params) (c s : InfoCon)
    → IsInfo c
    → IsInfo s
    → c.lid < 2 ^ 16
    → s.lid < 2 ^ 16
    → (cs.connects ≡ true) × (cs.writes ≡ true)
    → (ss.connects ≡ true) × (ss.writes ≡ true)
    → ss.reads ≡ some (text c)
    → cs.reads ≡ some (text s)
    → (cm.malloc ≡ some cf) × (sm.malloc ≡ some sf)
    → sm.host ≡ true
    → (cp.my_psn ≡ c.psn) × (sp.my_psn ≡ s.psn)
    → Takes takes cq cp s
    → Takes takes' sq sp c
    → (rdma_client_exch_dest cs cm c ≡ ok (some s, some (text c)))
      × (rdma_server_exch_dest takes' ss sm sq sp s ≡ ok ((some c, some (text s)), moved sq sp c))
      × (rdma_connect_ctx takes cq cp s ≡ (pos 0, moved cq cp s))
      × Ends (rts_attr cp s) (rts_attr sp c) c s
unfolding rdma_client_exch_dest rdma_server_exch_dest
client-server takes takes' cs ss cm sm cf sf cq sq cp sp c s vc vs lc ls hc hs arrives answers mem
      host psn tc ts =
    (
      rw
          (
            hc.0,
            hc.1,
            sprint_info_lem c vc,
            answers,
            read_reply-text s cf (record cm { gid = gid_to_wire_gid c.gid ++ (0 ∷ []) }) vs mem.0,
            rdma_client_exch_dest,
          )
          refl,
      rw
          (
            host,
            hs.0,
            arrives,
            read_reply-text c sf sm vc mem.1,
            serve-Takes takes' ss sq sp s c vs hs.1 ts,
            rdma_server_exch_dest,
          )
          refl,
      rdma_connect_ctx-Takes takes cq cp s tc,
      ends cp sp c s lc ls psn.0 psn.1,
    )
