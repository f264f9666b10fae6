-- ===== src/Wire/Syn/Laws.antt =====
-- The text of a message is read back.
use mathlib.Core.List.{append_assoc}
use workd.Prelude.{
  ℕ, suc, ◌^◌, ◌<◌, ◌≡◌, refl, ap, ◌∙◌, some, List, [], ◌∷◌, ◌++◌, arith, drop, All, u32,
}
use workd.Prelude.Outcome.{Outcome, ok}
use workd.Text.{print, scan, string_at}
use workd.Text.Fields.{Scanned, scan_gid, scan_num, scan_num-print, scan_gid-graph, field-IsGraph}
use workd.Text.Numbers.{sixteen, IsGraph, string_at-append}
use workd.Wire.Gid.{IsGid, gid_to_wire_gid, length-gid_to_wire_gid, gid_to_wire_gid-IsGraph}
use workd.Wire.Syn.{
  Syn, format, store_lid, Scanned, scan_gid, scan_hex, scan_psn, scan_qpn, scan_msg,
}

-- A message whose fields have their widths.
pub record IsSyn (im : Syn) : Type 0 where
  pub lid_small : im.lid < 2 ^ 16
  pub qpn_small : im.qpn < 2 ^ 32
  pub psn_small : im.psn < 2 ^ 32
  pub gid_valid : IsGid im.gid

scan_hex-print :
    (w x : ℕ) (store : ℕ → Syn → Syn) (next : List ℕ → Scanned Syn → Outcome (Scanned Syn))
    (s : List ℕ) (a : Scanned Syn)
    → x < 16 ^ suc w
    → x < 2 ^ 32
    → scan_hex store next (print 16 (suc w) x ++ (58 ∷ s)) a ≡ next s (store x a.0, a.1)
scan_hex-print w x store next s a h small =
    scan_num-print 16 w x (λ v. store (u32 v)) next s a (sixteen refl) h
    ∙ ap (λ v. next s (store v a.0, a.1)) (let e : u32 x ≡ x = omega arith in e)

-- Three fields and the word, as `format` prints them, with the NUL.
string_at-format :
    (im : Syn)
    → string_at (format im)
      ≡ some (
          print 16 4 im.lid
          ++ (58
              ∷ (print 16 8 im.qpn ++ (58 ∷ (print 16 8 im.psn ++ (58 ∷ gid_to_wire_gid im.gid))))))
unfolding format
string_at-format im = ap string_at (simp append_assoc) ∙ string_at-append _ [] graph
  where
    graph : All IsGraph (
        print 16 4 im.lid
        ++ (58
            ∷ (print 16 8 im.qpn ++ (58 ∷ (print 16 8 im.psn ++ (58 ∷ gid_to_wire_gid im.gid))))))
    graph =
        field-IsGraph 16 4 im.lid _ (
          field-IsGraph 16 8 im.qpn _
            (field-IsGraph 16 8 im.psn _ (gid_to_wire_gid-IsGraph im.gid)))

-- Every message with fields of their widths is read back by `scan_msg`, into any message and any
-- `gid`: the three numbers are its own, and `gid` starts with the text of its GID.
pub scan_msg-format :
    (im : Syn) (a : Scanned Syn)
    → IsSyn im
    → (tail : List ℕ) × (scan_msg (format im) a
        ≡ ok (record im { gid = a.0.gid }, gid_to_wire_gid im.gid ++ tail))
unfolding scan_msg store_lid
scan_msg-format im a v = (
  0 ∷ drop 33 a.1,
  rw (string_at-format im, scan_msg)
      (scan_hex-print 3 im.lid store_lid scan_qpn
          (print 16 8 im.qpn ++ (58 ∷ (print 16 8 im.psn ++ (58 ∷ gid_to_wire_gid im.gid)))) a
          v.lid_small (omega arith)
        ∙ scan_hex-print 7 im.qpn (λ x m. record m { qpn = x }) scan_psn
            (print 16 8 im.psn ++ (58 ∷ gid_to_wire_gid im.gid)) (store_lid im.lid a.0, a.1)
            v.qpn_small v.qpn_small
        ∙ scan_hex-print 7 im.psn (λ x m. record m { psn = x }) scan_gid (gid_to_wire_gid im.gid)
            (record (store_lid im.lid a.0) { qpn = im.qpn }, a.1) v.psn_small v.psn_small
        ∙ scan_gid-graph (gid_to_wire_gid im.gid)
            (record (store_lid im.lid a.0) { qpn = im.qpn; psn = im.psn }, a.1)
            (gid_to_wire_gid-IsGraph im.gid) (omega (arith, length-gid_to_wire_gid im.gid))
            (omega (arith, length-gid_to_wire_gid im.gid))
        ∙ rw (length-gid_to_wire_gid im.gid) (
            ap
              (λ l.
                ok (
                  record im { lid = l; gid = a.0.gid },
                  gid_to_wire_gid im.gid ++ (0 ∷ drop 33 a.1),
                ))
              (omega (arith, v.lid_small)))),
)

-- An empty text assigns nothing.
pub scan_msg-empty : (t : List ℕ) (a : Scanned Syn) → scan_msg (0 ∷ t) a ≡ ok a
unfolding scan_msg scan_num string_at scan
scan_msg-empty t a = refl
