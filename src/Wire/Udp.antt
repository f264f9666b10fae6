-- ===== src/Wire/Udp.antt =====
-- Infiniband::recv_udp_msg and Infiniband::send_udp_msg of rdma/Infiniband.cc. What the socket does
-- is an argument, as is whether ms_inject_socket_failures strikes.
pub mod Laws
use workd.Prelude.{
  ℕ, zero, suc, ◌+◌, Option, none, some, Bool, true, false, ◌&&◌, ◌||◌, List, [], ◌∷◌, ltb, ◌==◌,
  if◌then◌else◌,
}
use workd.Prelude.Int.{ℤ, pos, negsuc, minus_one, is_neg}
use workd.Prelude.Outcome.{Outcome, ok, fault, spent, ◌>>=◌}
use workd.Wire.Gid.{Gid, wire_gid_to_gid}
use workd.Wire.Syn.{Syn, format, msg_size, scan_msg}

pub data Errno : Type 0 where
  eintr eagain other : Errno

pub again : Errno → Bool
again eintr = true
again eagain = true
again other = false

-- One call of `recvfrom`: its result, `errno` after it, what stands in `msg` then (where nothing
-- came in, what stood there before), and the sender. `gid` and `v32` are the values of those
-- variables at entry, which nothing has set.
pub record Datagram : Type 0 where
  pub r : ℤ
  pub errno : Errno
  pub msg : List ℕ
  pub sender : ℕ
  pub inject : Bool
  pub gid : List ℕ
  pub v32 : ℕ

pub record Received : Type 0 where
  pub result : ℤ
  pub im : Syn
  pub addr : ℕ

-- (size_t)r == sizeof(msg)
unfoldable pub whole : ℤ → Bool
whole (pos n) = n == msg_size
whole (negsuc n) = false

-- r == -1
pub failed : ℤ → Bool
failed (pos n) = false
failed (negsuc zero) = true
failed (negsuc (suc n)) = false

-- The branches behind the scan.
pub judge : Datagram → ℤ → Syn → ℕ → Received
judge d r im addr =
    if failed r
    then record { result = if again d.errno then pos 1 else minus_one; im = im; addr = addr }
    else if whole r
    then record { result = pos 0; im = im; addr = d.sender }
    else record { result = pos 1; im = im; addr = addr }

-- That the descriptor `sd` is not negative is asserted. The message is scanned before the result of
-- `recvfrom` is looked at.
pub recv_udp_msg : ℤ → Datagram → Syn → ℕ → Outcome Received
recv_udp_msg sd d im addr = if is_neg sd then fault else (do
  (im', gid) ← scan_msg d.msg (im, d.gid)
  ok (
      judge d (if d.inject then minus_one else d.r) (record im' { gid = wire_gid_to_gid gid d.v32 })
        addr))

-- One call of `sendto`, and `errno` after it.
pub record Attempt : Type 0 where
  pub r : ℤ
  pub errno : Errno
  pub inject : Bool

unfoldable pub outcome : Attempt → ℤ
outcome a = if a.inject then minus_one else a.r

-- The text goes out once for each attempt; the result, and how many attempts there were. A call
-- that is not over with the attempts is `spent`.
unfoldable pub send_from : List Attempt → ℕ → ℕ → Outcome (ℤ × ℕ)
send_from [] retry used = spent
send_from (a ∷ tries) retry used =
    let rest = send_from tries (retry + 1) (used + 1) in
    if whole (outcome a)
    then ok (pos 0, used + 1)
    else if is_neg (outcome a) && (again a.errno && ltb retry 3)
    then rest
    else ok (minus_one, used + 1)

-- What is sent, what the call returns, and the number of attempts. That the descriptor `sd` is not
-- negative is asserted.
unfoldable pub send_udp_msg : ℤ → Syn → List Attempt → Outcome (List ℕ × ℤ × ℕ)
unfolding send_from
send_udp_msg sd im attempts =
    if is_neg sd then fault else (do (r, used) ← send_from attempts 0 0; ok (format im, r, used))
