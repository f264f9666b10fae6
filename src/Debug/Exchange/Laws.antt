-- ===== src/Debug/Exchange/Laws.antt =====
-- The text of an info_con is read back.
use mathlib.Core.List.{append_assoc}
use workd.Prelude.{
  true, ℕ, suc, ◌+◌, ◌^◌, ◌≤◌, ◌<◌, ◌≡◌, refl, ap, ◌∙◌, some, List, [], ◌∷◌, ◌++◌, arith, length,
  length-append, drop, u32, lt→ltb,
}
use workd.Prelude.Outcome.{Outcome, ok, fault}
use workd.Text.{print, string_at}
use workd.Text.Fields.{
  Scanned, scan_gid, scan_num, scan_num-print, scan_gid-graph, field-IsGraph, length-print,
  length-print_min, length-print_over,
}
use workd.Text.Numbers.{ten, sixteen, string_at-append}
use workd.Wire.Gid.{
  IsGid, gid_to_wire_gid, length-gid_to_wire_gid, gid_to_wire_gid-IsGraph,
  wire_gid_to_gid-gid_to_wire_gid,
}
use workd.Debug.Exchange.{
  InfoCon, numbers, sprint_info, ulong, scan_rkey, scan_addr, scan_psn, scan_qpn, scan_info, Memory,
  Stream, rdma_client_exch_dest, read_info,
}

-- An info_con whose fields have their widths, with an address of at most 16 digits.
pub record IsInfo (im : InfoCon) : Type 0 where
  pub lid_small : im.lid < 2 ^ 32
  pub qpn_small : im.qpn < 2 ^ 32
  pub psn_small : im.psn < 2 ^ 32
  pub rkey_small : im.rkey < 2 ^ 32
  pub addr_small : im.addr < 10 ^ 16
  pub gid_valid : IsGid im.gid

-- The text with its NUL.
abbrev pub text : InfoCon → List ℕ
text im = numbers im (gid_to_wire_gid im.gid ++ (0 ∷ []))

length-field :
    (b w x : ℕ) (t : List ℕ) → x < b ^ w → length (print b w x ++ (58 ∷ t)) ≡ w + suc (length t)
length-field b w x t h = omega (arith, length-append (print b w x) (58 ∷ t), length-print b w x h)

length-text : (im : InfoCon) → IsInfo im → length (text im) ≡ 86
length-text im v =
    rw
      (
        length-field 16 8 im.lid _ v.lid_small,
        length-field 16 8 im.qpn _ v.qpn_small,
        length-field 16 8 im.psn _ v.psn_small,
        length-field 10 16 im.addr _ v.addr_small,
        length-field 16 8 im.rkey _ v.rkey_small,
        length-append (gid_to_wire_gid im.gid) (0 ∷ []),
        length-gid_to_wire_gid im.gid,
      )
      refl

pub sprint_info_lem : (im : InfoCon) → IsInfo im → sprint_info im ≡ ok (text im)
unfolding sprint_info
sprint_info_lem im v = ground (arith, length-text im v)

numbers-append : (im : InfoCon) (s t : List ℕ) → numbers im s ++ t ≡ numbers im (s ++ t)
numbers-append im s t = simp append_assoc

string_at-text : (im : InfoCon) → string_at (text im) ≡ some (numbers im (gid_to_wire_gid im.gid))
string_at-text im =
    ap string_at (simp append_assoc)
    ∙ string_at-append (numbers im (gid_to_wire_gid im.gid)) [] (
        field-IsGraph 16 8 im.lid _ (
          field-IsGraph 16 8 im.qpn _ (
            field-IsGraph 16 8 im.psn _ (
              field-IsGraph 10 16 im.addr _
                (field-IsGraph 16 8 im.rkey _ (gid_to_wire_gid-IsGraph im.gid))))))

-- One %x, and %lu, in front of the rest of the text.
hex :
    (x : ℕ) (store : ℕ → InfoCon → InfoCon)
    (next : List ℕ → Scanned InfoCon → Outcome (Scanned InfoCon)) (s : List ℕ) (a : Scanned InfoCon)
    → x < 2 ^ 32
    → scan_num 16 (λ v. store (u32 v)) next (print 16 8 x ++ (58 ∷ s)) a ≡ next s (store x a.0, a.1)
hex x store next s a h =
    scan_num-print 16 7 x (λ v. store (u32 v)) next s a (sixteen refl) h
    ∙ ap (λ v. next s (store v a.0, a.1)) (let e : u32 x ≡ x = omega arith in e)

ulong_small : (x : ℕ) → x < 10 ^ 16 → ulong x ≡ x
ulong_small x h = rw (lt→ltb x (2 ^ 64) (omega arith)) refl

scan_addr-print :
    (x : ℕ) (s : List ℕ) (a : Scanned InfoCon)
    → x < 10 ^ 16
    → scan_addr (print 10 16 x ++ (58 ∷ s)) a ≡ scan_rkey s (record a.0 { addr = x }, a.1)
scan_addr-print x s a h =
    scan_num-print 10 15 x (λ v im. record im { addr = ulong v }) scan_rkey s a (ten refl) h
    ∙ ap (λ v. scan_rkey s (record a.0 { addr = v }, a.1)) (ulong_small x h)

scan_info-text :
    (im : InfoCon) (a : Scanned InfoCon)
    → IsInfo im
    → scan_info (text im) a
      ≡ ok (record im { gid = a.0.gid }, gid_to_wire_gid im.gid ++ (0 ∷ drop 33 a.1))
unfolding scan_info
scan_info-text im a v =
    let g = gid_to_wire_gid im.gid in
    let a1 : Scanned InfoCon = (record a.0 { lid = im.lid }, a.1) in
    let a2 : Scanned InfoCon = (record a1.0 { qpn = im.qpn }, a.1) in
    let a3 : Scanned InfoCon = (record a2.0 { psn = im.psn }, a.1) in
    let a4 : Scanned InfoCon = (record a3.0 { addr = im.addr }, a.1) in
    let a5 : Scanned InfoCon = (record a4.0 { rkey = im.rkey }, a.1) in
    rw (string_at-text im, scan_info)
      (hex im.lid (λ x m. record m { lid = x }) scan_qpn _ a v.lid_small
        ∙ hex im.qpn (λ x m. record m { qpn = x }) scan_psn _ a1 v.qpn_small
        ∙ hex im.psn (λ x m. record m { psn = x }) scan_addr _ a2 v.psn_small
        ∙ scan_addr-print im.addr _ a3 v.addr_small
        ∙ hex im.rkey (λ x m. record m { rkey = x }) scan_gid g a4 v.rkey_small
        ∙ scan_gid-graph g a5 (gid_to_wire_gid-IsGraph im.gid)
            (omega (arith, length-gid_to_wire_gid im.gid))
            (omega (arith, length-gid_to_wire_gid im.gid))
        ∙ rw (length-gid_to_wire_gid im.gid) refl)

pub read_info-text :
    (im fresh : InfoCon) (m : Memory) → IsInfo im → read_info (text im) fresh m ≡ ok im
unfolding read_info
read_info-text im fresh m v =
    rw
      (
        scan_info-text im (fresh, m.gid) v,
        wire_gid_to_gid-gid_to_wire_gid im.gid m.v32 (0 ∷ drop 33 m.gid) v.gid_valid,
        read_info,
      )
      refl

-- The text of an info_con is read back whole: where the numbers fit 32 bits and the address has at
-- most 16 decimal digits, `sprintf` fills `msg` exactly, its NUL included, and what the other side
-- reads from these bytes, into whatever memory, is the same info_con, its GID included.
pub read_info-sprint_info :
    (im fresh : InfoCon) (m : Memory)
    → IsInfo im
    → (msg : List ℕ) × (sprint_info im ≡ ok msg)
      × (length msg ≡ 86)
      × (read_info msg fresh m ≡ ok im)
read_info-sprint_info im fresh m v =
    (text im, sprint_info_lem im v, length-text im v, read_info-text im fresh m v)

field_long : (b w x : ℕ) (t : List ℕ) → w + suc (length t) ≤ length (print b w x ++ (58 ∷ t))
field_long b w x t = omega (arith, length-append (print b w x) (58 ∷ t), length-print_min b w x)

addr_field :
    (x : ℕ) (t : List ℕ) → 10 ^ 16 ≤ x → 17 + suc (length t) ≤ length (print 10 16 x ++ (58 ∷ t))
addr_field x t h =
    omega (arith, length-append (print 10 16 x) (58 ∷ t), length-print_over 10 16 x h)

-- An address of 17 digits or more does not fit, whatever the other fields are: `sprintf` writes
-- past the end of `msg`.
pub sprint_info_long : (im : InfoCon) → 10 ^ 16 ≤ im.addr → sprint_info im ≡ fault
unfolding sprint_info
sprint_info_long im h = ground (arith, long)
  where
    end : List ℕ
    end = gid_to_wire_gid im.gid ++ (0 ∷ [])

    from_rkey : List ℕ
    from_rkey = print 16 8 im.rkey ++ (58 ∷ end)

    from_addr : List ℕ
    from_addr = print 10 16 im.addr ++ (58 ∷ from_rkey)

    from_psn : List ℕ
    from_psn = print 16 8 im.psn ++ (58 ∷ from_addr)

    from_qpn : List ℕ
    from_qpn = print 16 8 im.qpn ++ (58 ∷ from_psn)

    long : 86 < length (text im)
    long = omega (
      arith,
      field_long 16 8 im.lid from_qpn,
      field_long 16 8 im.qpn from_psn,
      field_long 16 8 im.psn from_addr,
      addr_field im.addr from_rkey h,
      field_long 16 8 im.rkey end,
      length-append (gid_to_wire_gid im.gid) (0 ∷ []),
      length-gid_to_wire_gid im.gid,
    )

pub rdma_client_exch_dest_long :
    (s : Stream) (m : Memory) (im : InfoCon)
    → s.connects ≡ true
    → 10 ^ 16 ≤ im.addr
    → rdma_client_exch_dest s m im ≡ fault
unfolding rdma_client_exch_dest
rdma_client_exch_dest_long s m im reached h =
    rw (reached, sprint_info_long im h, rdma_client_exch_dest) refl
