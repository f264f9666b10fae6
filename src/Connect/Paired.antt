-- ===== src/Connect/Paired.antt =====
-- What a connection that has come about looks like on both sides.
use mathlib.Core.List.{append_assoc}
use workd.Prelude.{
  ℕ, ◌≡◌, refl, ap, some, Bool, true, false, List, [], ◌∷◌, ◌++◌, ◌⊎◌, inl, inr, Bool-cases,
}
use workd.Prelude.Int.{pos, minus_one}
use workd.Prelude.Outcome.{Outcome, ok}
use workd.Wire.Syn.{Syn, format}
use workd.Wire.Syn.Laws.{IsSyn}
use workd.Wire.Gid.{wire_gid_to_gid}
use workd.Wire.Udp.{eintr, Datagram, Attempt, send_udp_msg}
use workd.Wire.Udp.Laws.{Brings, recv_udp_msg-format, recv_udp_msg-unheard}
use workd.Stack.{setup_client}
use workd.Connect.QueuePair.{QpAttr, rts, Call, modify_qp}
use workd.Connect.Handshake.{
  Socket, rtr_attr, rts_attr, rtr_mask, rts_mask, activate, connect, accept,
}

-- The two calls that bring a queue pair from INIT to RTS.
abbrev plumbing : Socket → List Call
plumbing s = (rtr_attr s, rtr_mask) ∷ (rts_attr s, rts_mask) ∷ []

-- A device that takes the two calls of this socket.
abbrev Takes : (List Call → Call → Bool) → Socket → Type 0
Takes takes s =
    (takes s.qp.calls (rtr_attr s, rtr_mask) ≡ true)
    × (takes (s.qp.calls ++ (rtr_attr s, rtr_mask) ∷ []) (rts_attr s, rts_mask) ≡ true)

abbrev pub activated : Socket → Socket
activated s = record s {
  qp = record { qp_num = s.qp.qp_num; calls = s.qp.calls ++ plumbing s };
  connected = true;
}

activate-Takes :
    (takes : List Call → Call → Bool) (s : Socket)
    → Takes takes s
    → activate takes s ≡ (pos 0, activated s)
unfolding activate modify_qp
activate-Takes takes s h = rw (h.0, h.1, activate) (rw append_assoc)

-- `activate` returns 0 or -1. Where it returns 0 it has moved the queue pair by both calls and
-- marked the socket connected; where it returns -1 the mark is as it was, and at most the first
-- call has been taken.
pub activate_lem :
    (takes : List Call → Call → Bool) (s : Socket)
    → let (r, s') = activate takes s in
      ((r ≡ pos 0) × (s' ≡ activated s))
      ⊎ ((r ≡ minus_one)
          × (s'.connected ≡ s.connected)
          × ((s'.qp ≡ s.qp) ⊎ (s'.qp.calls ≡ s.qp.calls ++ (rtr_attr s, rtr_mask) ∷ [])))
unfolding activate modify_qp
activate_lem takes s = elim (Bool-cases (takes s.qp.calls (rtr_attr s, rtr_mask))) [
  | inr refused ↦ inr (rw refused (refl, refl, inl refl))
  | inl first ↦
      elim (Bool-cases (takes (s.qp.calls ++ (rtr_attr s, rtr_mask) ∷ []) (rts_attr s, rts_mask))) [
        | inr refused ↦ inr (rw (first, refused) (refl, refl, inr refl))
        | inl second ↦ inl (rw (first, second, append_assoc) (refl, refl))
      ]
]

-- Two ends that are set up for each other: what one sends from, the other expects.
pub record Agree (a b : QpAttr) (am bm : Syn) : Type 0 where
  pub states : (a.qp_state ≡ rts) × (b.qp_state ≡ rts)
  pub numbers : (a.dest_qp_num ≡ bm.qpn) × (b.dest_qp_num ≡ am.qpn)
  pub sequence : (a.rq_psn ≡ b.sq_psn) × (b.rq_psn ≡ a.sq_psn)
  pub addresses : (a.ah_attr.dlid ≡ bm.lid) × (b.ah_attr.dlid ≡ am.lid)
  pub gids : (a.ah_attr.dgid ≡ bm.gid) × (b.ah_attr.dgid ≡ am.gid)

-- The two ends after the exchange, which the two calls have brought to RTS for each other.
paired :
    (c s : Socket)
    → c.peer_msg ≡ s.my_msg
    → s.peer_msg ≡ c.my_msg
    → Agree (rts_attr c) (rts_attr s) c.my_msg s.my_msg
unfolding rts_attr rtr_attr
paired c s e f = record {
  states = (refl, refl);
  numbers = (ap (λ m. m.qpn) e, ap (λ m. m.qpn) f);
  sequence = (ap (λ m. m.psn) e, ap (λ m. m.psn) f);
  addresses = (ap (λ m. m.lid) e, ap (λ m. m.lid) f);
  gids = (ap (λ m. m.gid) e, ap (λ m. m.gid) f);
}

-- `connect` at one end and `accept` at the other: if both have a datagram socket, the messages have fields of their widths,
-- the datagrams carry each end's text to the other, both texts go out, the server's socket is
-- opened for the client's message, and both devices take the calls, then both calls return 0, the
-- server answers the sender of the datagram with its own message, both sockets are marked
-- connected with their queue pairs moved to RTS, and each is set up with the queue pair number,
-- packet sequence number, LID and GID of the other.
pub connect-accept :
    (takes takes' : List Call → Call → Bool) (fd sd : ℕ) (connects : Bool) (c s : Socket)
    (open_server : Syn → Outcome Socket) (ca sa : List Attempt) (k j : ℕ) (d answer : Datagram)
    (ds : List Datagram) (msg : Syn) (addr : ℕ)
    → IsSyn c.my_msg
    → IsSyn s.my_msg
    → send_udp_msg (pos fd) c.my_msg ca ≡ ok (format c.my_msg, pos 0, k)
    → send_udp_msg (pos sd) s.my_msg sa ≡ ok (format s.my_msg, pos 0, j)
    → Brings c.my_msg d
    → Brings s.my_msg answer
    → open_server c.my_msg ≡ ok s
    → s.peer_msg ≡ c.my_msg
    → Takes takes (record c { peer_msg = s.my_msg })
    → Takes takes' s
    → let c' = record c { peer_msg = s.my_msg } in
      (connect takes (some fd) connects c ca answer addr ≡ ok (pos 0, some (activated c')))
      × (accept takes' (pos sd) open_server (d ∷ ds) sa msg addr
          ≡ ok (pos 0, some (activated s, format s.my_msg, d.sender)))
      × Agree (rts_attr c') (rts_attr s) c.my_msg s.my_msg
unfolding connect accept setup_client
connect-accept takes takes' fd sd connects c s open_server ca sa k j d answer ds msg addr vc vs ec
      es bd ba eo ep tc ts =
    (
      rw
          (
            ec,
            recv_udp_msg-format fd s.my_msg c.my_msg answer addr vs ba,
            activate-Takes takes _ tc,
            connect,
          )
          refl,
      rw
          (
            recv_udp_msg-format sd c.my_msg msg d addr vc bd,
            eo,
            es,
            activate-Takes takes' s ts,
            accept,
          )
          refl,
      paired (record c { peer_msg = s.my_msg }) s refl ep,
    )

-- The socket with its own message as the peer's, but for the GID.
abbrev pub alone : Socket → Datagram → Socket
alone c d = record c { peer_msg = record c.my_msg { gid = wire_gid_to_gid d.gid d.v32 } }

-- `connect` that a signal interrupts while it waits for the server: where there is a datagram
-- socket, the text has gone out, `recvfrom` fails with EINTR, the buffer holds an empty text and the
-- device takes the calls, the result is 0 all the same, with a socket that is marked connected and whose queue pair is set up with its own number
-- and packet sequence number as the peer's.
pub connect_interrupted :
    (takes : List Call → Call → Bool) (fd : ℕ) (connects : Bool) (c : Socket) (ca : List Attempt)
    (k : ℕ) (d : Datagram) (addr : ℕ) (t : List ℕ)
    → send_udp_msg (pos fd) c.my_msg ca ≡ ok (format c.my_msg, pos 0, k)
    → d.msg ≡ 0 ∷ t
    → d.r ≡ minus_one
    → d.inject ≡ false
    → d.errno ≡ eintr
    → Takes takes (alone c d)
    → (connect takes (some fd) connects c ca d addr ≡ ok (pos 0, some (activated (alone c d))))
      × ((rts_attr (alone c d)).dest_qp_num ≡ c.my_msg.qpn)
      × ((rts_attr (alone c d)).rq_psn ≡ c.my_msg.psn)
unfolding connect setup_client rts_attr rtr_attr
connect_interrupted takes fd connects c ca k d addr t ec em er en eo tc = (
  rw
      (
        ec,
        recv_udp_msg-unheard fd c.my_msg d addr t em er en eo,
        activate-Takes takes (alone c d) tc,
        connect,
      )
      refl,
  refl,
  refl,
)
