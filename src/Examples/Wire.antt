-- ===== src/Examples/Wire.antt =====
-- The theorems about texts and messages at concrete inputs.
use workd.Prelude.{ℕ, ◌≤◌, ◌≡◌, refl, false, List, [], ◌∷◌, arith}
use workd.Prelude.Int.{ℤ, pos, minus_one}
use workd.Prelude.Outcome.{ok}
use workd.Wire.Gid.{Gid, IsGid}
use workd.Wire.Syn.{Syn, format, msg_size}
use workd.Wire.Syn.Laws.{IsSyn}
use workd.Wire.Udp.{eintr, other, Datagram, recv_udp_msg, Attempt, send_udp_msg}
use workd.Wire.Udp.Laws.{recv_udp_msg-format, Tried, send_udp_msg_lem}

abbrev gid : Gid
gid = record { w0 = 254; w1 = 0; w2 = 65535; w3 = 4294967295 }

abbrev syn : Syn
syn = record { lid = 5; qpn = 77; psn = 123456; gid = gid }

abbrev unset : Syn
unset = record { lid = 0; qpn = 0; psn = 0; gid = gid }

abbrev datagram : Datagram
datagram = record {
  r = pos msg_size;
  errno = other;
  msg = format syn;
  sender = 3;
  inject = false;
  gid = [];
  v32 = 0;
}

gid-IsGid : IsGid gid
gid-IsGid = record {
  small0 = omega arith;
  small1 = omega arith;
  small2 = omega arith;
  small3 = omega arith;
}

syn-IsSyn : IsSyn syn
syn-IsSyn = record {
  lid_small = omega arith;
  qpn_small = omega arith;
  psn_small = omega arith;
  gid_valid = gid-IsGid;
}

recv_udp_msg-format_example :
    recv_udp_msg (pos 4) datagram unset 0 ≡ ok (record { result = pos 0; im = syn; addr = 3 })
recv_udp_msg-format_example =
    recv_udp_msg-format 4 syn unset datagram 0 syn-IsSyn
      (record { text = refl; size = refl; quiet = refl })

abbrev interrupted : Attempt
interrupted = record { r = minus_one; errno = eintr; inject = false }

abbrev sent : Attempt
sent = record { r = pos msg_size; errno = other; inject = false }

abbrev attempts : List Attempt
attempts = interrupted ∷ sent ∷ sent ∷ sent ∷ []

send_udp_msg_lem_example :
    (r : ℤ) × (used : ℕ) × (send_udp_msg (pos 4) syn attempts ≡ ok (format syn, r, used))
    × (used ≤ 4)
    × Tried attempts 0 r used
send_udp_msg_lem_example = send_udp_msg_lem 4 syn attempts (omega arith)
