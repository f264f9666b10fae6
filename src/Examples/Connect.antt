-- ===== src/Examples/Connect.antt =====
-- The theorems about connections at concrete inputs.
use workd.Prelude.{Option, ℕ, ◌≡◌, refl, false, true, some, Bool, List, [], ◌∷◌, arith}
use workd.Prelude.Int.{pos, minus_one}
use workd.Prelude.Outcome.{Outcome, ok}
use workd.Wire.Gid.{Gid}
use workd.Wire.Syn.{Syn, format, msg_size}
use workd.Wire.Syn.Laws.{IsSyn}
use workd.Wire.Udp.{eintr, other, whole, Datagram, Attempt, outcome, send_from, send_udp_msg}
use workd.Connect.QueuePair.{Call, InitAttr, Site, rc, create_queue_pair}
use workd.Completion.Create.{set_nonblocking}
use workd.Connect.QueuePair.Opened.{opened, create_queue_pair_lem}
use workd.Connect.Handshake.{Socket, rts_attr, connect, accept}
use workd.Connect.Paired.{activated, alone, Agree, connect-accept, connect_interrupted}

abbrev gid : ℕ → Gid
gid n = record { w0 = n; w1 = 0; w2 = 0; w3 = 1 }

abbrev client_msg : Syn
client_msg = record { lid = 1; qpn = 11; psn = 111; gid = gid 1 }

abbrev server_msg : Syn
server_msg = record { lid = 2; qpn = 22; psn = 222; gid = gid 2 }

abbrev socket : Syn → Syn → Socket
socket mine other_end = record {
  qp = record { qp_num = mine.qpn; calls = [] };
  my_msg = mine;
  peer_msg = other_end;
  port = 1;
  connected = false;
}

abbrev takes : List Call → Call → Bool
takes calls c = true

abbrev attempts : List Attempt
attempts = record { r = pos msg_size; errno = other; inject = false } ∷ []

abbrev brings : Syn → ℕ → Datagram
brings im from = record {
  r = pos msg_size;
  errno = other;
  msg = format im;
  sender = from;
  inject = false;
  gid = [];
  v32 = 0;
}

abbrev silence : Datagram
silence = record {
  r = minus_one;
  errno = eintr;
  msg = 0 ∷ [];
  sender = 0;
  inject = false;
  gid = 48 ∷ 49 ∷ [];
  v32 = 0;
}

abbrev open_server : Syn → Outcome Socket
open_server im = ok (socket server_msg im)

client_msg-IsSyn : IsSyn client_msg
client_msg-IsSyn = record {
  lid_small = omega arith;
  qpn_small = omega arith;
  psn_small = omega arith;
  gid_valid = record {
    small0 = omega arith;
    small1 = omega arith;
    small2 = omega arith;
    small3 = omega arith;
  };
}

server_msg-IsSyn : IsSyn server_msg
server_msg-IsSyn = record {
  lid_small = omega arith;
  qpn_small = omega arith;
  psn_small = omega arith;
  gid_valid = record {
    small0 = omega arith;
    small1 = omega arith;
    small2 = omega arith;
    small3 = omega arith;
  };
}

goes_out : (sd : ℕ) (im : Syn) → send_udp_msg (pos sd) im attempts ≡ ok (format im, pos 0, 1)
unfolding send_udp_msg send_from whole outcome
goes_out sd im = refl

connect-accept_example :
    let c = socket client_msg server_msg in
    let s = socket server_msg client_msg in
    (connect takes (some 4) true (socket client_msg client_msg) attempts (brings server_msg 8) 0
      ≡ ok (pos 0, some (activated c)))
    × (accept takes (pos 5) open_server (brings client_msg 9 ∷ []) attempts client_msg 0
        ≡ ok (pos 0, some (activated s, format server_msg, 9)))
    × Agree (rts_attr c) (rts_attr s) client_msg server_msg
connect-accept_example =
    connect-accept takes takes 4 5 true (socket client_msg client_msg)
      (socket server_msg client_msg) open_server attempts attempts 1 1 (brings client_msg 9)
      (brings server_msg 8) [] client_msg 0 client_msg-IsSyn server_msg-IsSyn
      (goes_out 4 client_msg) (goes_out 5 server_msg)
      (record { text = refl; size = refl; quiet = refl })
      (record { text = refl; size = refl; quiet = refl }) refl refl (refl, refl) (refl, refl)

connect_interrupted_example :
    let c = socket client_msg client_msg in
    (connect takes (some 4) true c attempts silence 0
      ≡ ok (pos 0, some (activated (alone c silence))))
    × ((rts_attr (alone c silence)).dest_qp_num ≡ 11)
    × ((rts_attr (alone c silence)).rq_psn ≡ 111)
connect_interrupted_example =
    connect_interrupted takes 4 true (socket client_msg client_msg) attempts 1 silence 0 []
      (goes_out 4 client_msg) refl refl refl refl (refl, refl)

abbrev site : Site
site = record {
  channel = record { created = true; flags = some 2; takes_flags = λ f. true };
  queue = record { created = true; notified = true };
  cq = 4;
  ib_physical_port = 1;
  srq = 2;
  tx_cq = some 3;
  max_send_wr = 100;
  max_recv_wr = 100;
  max_inline_data = 128;
  random = 12345;
}

abbrev create : InitAttr → Option ℕ
create a = some 9

create_queue_pair_lem_example : create_queue_pair create takes site rc ≡ ok (some (opened site 9))
unfolding set_nonblocking
create_queue_pair_lem_example = create_queue_pair_lem create takes site
