-- ===== src/Wire/Syn.antt =====
-- struct IBSYNMsg of rdma/Infiniband.h, and its text in send_udp_msg and recv_udp_msg of
-- rdma/Infiniband.cc: "%04x:%08x:%08x:%s".
pub mod Laws
use workd.Prelude.{
  ℕ, zero, suc, ◌+◌, ◌*◌, ◌/◌, ◌%◌, ◌^◌, Option, none, some, Bool, true, false, List, [], ◌∷◌, ◌++◌,
  length, drop, u32, leb, if◌then◌else◌,
}
use workd.Prelude.Outcome.{Outcome, ok, fault}
use workd.Text.{print, string_at}
use workd.Text.Fields.{Scanned, scan_gid, scan_num}
use workd.Wire.Gid.{Gid, gid_to_wire_gid, wire_gid_to_gid}

pub record Syn : Type 0 where
  pub lid : ℕ
  pub qpn : ℕ
  pub psn : ℕ
  pub gid : Gid

-- The text that sprintf leaves in `msg`, with its NUL.
pub format : Syn → List ℕ
format im =
    print 16 4 im.lid
    ++ (58
        ∷ (print 16 8 im.qpn
            ++ (58 ∷ (print 16 8 im.psn ++ (58 ∷ (gid_to_wire_gid im.gid ++ (0 ∷ [])))))))

-- sizeof msg
abbrev pub msg_size : ℕ
msg_size = 56

-- sscanf stores the 32 bits of a %x at the 16-bit `lid` of the packed struct: the upper half goes
-- to the lower half of `qpn`, which stands behind it.
pub store_lid : ℕ → Syn → Syn
store_lid v im = record im {
  lid = v % 2 ^ 16;
  qpn = im.qpn / 2 ^ 16 * 2 ^ 16 + v / 2 ^ 16 % 2 ^ 16;
}

-- A %x with the literal behind it, stored by `store`.
abbrev pub scan_hex :
    (ℕ → Syn → Syn)
    → (List ℕ → Scanned Syn → Outcome (Scanned Syn))
    → List ℕ
    → Scanned Syn
    → Outcome (Scanned Syn)
scan_hex store next s a = scan_num 16 (λ v. store (u32 v)) next s a

-- From the third field on, and from the second.
abbrev scan_psn : List ℕ → Scanned Syn → Outcome (Scanned Syn)
scan_psn = scan_hex (λ v im. record im { psn = v }) scan_gid

abbrev scan_qpn : List ℕ → Scanned Syn → Outcome (Scanned Syn)
scan_qpn = scan_hex (λ v im. record im { qpn = v }) scan_psn

-- sscanf(msg, "%x:%x:%x:%s", ...); with no NUL in `msg` it reads past the end.
pub scan_msg : List ℕ → Scanned Syn → Outcome (Scanned Syn)
scan_msg msg a = elim (string_at msg) [ none ↦ fault | some s ↦ scan_hex store_lid scan_qpn s a ]
