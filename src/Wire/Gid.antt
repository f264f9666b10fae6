-- ===== src/Wire/Gid.antt =====
-- wire_gid_to_gid and gid_to_wire_gid of rdma/Infiniband.cc, which debug/pingpong.c has in the same
-- words. The host is little-endian: `htonl` and `ntohl` reverse the bytes of a word.
use mathlib.Core.List.{append_assoc, append-nil}
use workd.Prelude.{
  ℕ, ◌+◌, ◌*◌, ◌/◌, ◌%◌, ◌^◌, ◌<◌, ◌≡◌, sym, drop-drop, refl, ap, ◌∙◌, none, some, List, [], ◌++◌,
  arith, All, All-append, length, take, drop, take-append_self, drop-append_self, length-append,
  u32, inl,
}
use workd.Text.{print, scan}
use workd.Text.Numbers.{sixteen, scan-print, length-fixed, print-fixed, IsGraph, print-IsGraph}

-- `union ibv_gid` as the four words that the functions go through.
pub record Gid : Type 0 where
  pub w0 : ℕ
  pub w1 : ℕ
  pub w2 : ℕ
  pub w3 : ℕ

pub record IsGid (g : Gid) : Type 0 where
  pub small0 : g.w0 < 2 ^ 32
  pub small1 : g.w1 < 2 ^ 32
  pub small2 : g.w2 < 2 ^ 32
  pub small3 : g.w3 < 2 ^ 32

-- `htonl` and `ntohl`.
swap : ℕ → ℕ
swap x = x % 256 * 2 ^ 24 + x / 2 ^ 8 % 256 * 2 ^ 16 + x / 2 ^ 16 % 256 * 2 ^ 8 + x / 2 ^ 24 % 256

-- The text, four fields of %08x.
pub gid_to_wire_gid : Gid → List ℕ
gid_to_wire_gid g =
    print 16 8 (swap g.w0)
    ++ (print 16 8 (swap g.w1) ++ (print 16 8 (swap g.w2) ++ print 16 8 (swap g.w3)))

-- `sscanf(tmp, "%x", &v32)` on the 8 bytes of `tmp`: with no digit in front `v32` stays.
scan_v32 : List ℕ → ℕ → ℕ
scan_v32 tmp v32 = elim (scan 16 8 tmp) [ none ↦ v32 | some (v, _) ↦ u32 v ]

-- `wgid` is the memory at the pointer, `v32` the variable's value at entry.
pub wire_gid_to_gid : List ℕ → ℕ → Gid
wire_gid_to_gid wgid v32 =
    let v0 = scan_v32 (take 8 wgid) v32 in
    let v1 = scan_v32 (take 8 (drop 8 wgid)) v0 in
    let v2 = scan_v32 (take 8 (drop 16 wgid)) v1 in
    let v3 = scan_v32 (take 8 (drop 24 wgid)) v2 in
    record { w0 = swap v0; w1 = swap v1; w2 = swap v2; w3 = swap v3 }

swap-lt : (x : ℕ) → swap x < 2 ^ 32
unfolding swap
swap-lt x = omega arith

swap-swap : (x : ℕ) → x < 2 ^ 32 → swap (swap x) ≡ x
unfolding swap
swap-swap x h = omega arith

length-print8 : (x : ℕ) → x < 2 ^ 32 → length (print 16 8 x) ≡ 8
length-print8 x h = rw (print-fixed 16 8 x h) (length-fixed 16 8 x)

scan_v32-print : (x v : ℕ) → x < 2 ^ 32 → scan_v32 (print 16 8 x) v ≡ x
unfolding scan_v32
scan_v32-print x v h = rw (read, scan_v32) (omega arith)
  where
    read : scan 16 8 (print 16 8 x) ≡ some (x, [])
    read =
        ap (scan 16 8) (sym (append-nil (print 16 8 x)))
        ∙ scan-print 16 7 0 x [] (sixteen refl) (omega arith) (inl refl)

-- The four fields of a text, for any numbers in them.
wire_fields :
    (x0 x1 x2 x3 v32 : ℕ) (rest : List ℕ)
    → x0 < 2 ^ 32
    → x1 < 2 ^ 32
    → x2 < 2 ^ 32
    → x3 < 2 ^ 32
    → wire_gid_to_gid
        (print 16 8 x0 ++ (print 16 8 x1 ++ (print 16 8 x2 ++ (print 16 8 x3 ++ rest))))
        v32
      ≡ record { w0 = swap x0; w1 = swap x1; w2 = swap x2; w3 = swap x3 }
unfolding wire_gid_to_gid
wire_fields x0 x1 x2 x3 v32 rest h0 h1 h2 h3 = rw (
  field x0 t1 h0,
  scan_v32-print x0 v32 h0,
  behind x0 t1 h0,
  field x1 t2 h1,
  scan_v32-print x1 x0 h1,
  ← drop-drop 8 8 (print 16 8 x0 ++ t1),
  behind x0 t1 h0,
  behind x1 t2 h1,
  field x2 t3 h2,
  scan_v32-print x2 x1 h2,
  ← drop-drop 8 16 (print 16 8 x0 ++ t1),
  ← drop-drop 8 8 (print 16 8 x0 ++ t1),
  behind x0 t1 h0,
  behind x1 t2 h1,
  behind x2 t3 h2,
  field x3 rest h3,
  scan_v32-print x3 x2 h3,
)
  where
    t3 : List ℕ
    t3 = print 16 8 x3 ++ rest

    t2 : List ℕ
    t2 = print 16 8 x2 ++ t3

    t1 : List ℕ
    t1 = print 16 8 x1 ++ t2

    field : (x : ℕ) (t : List ℕ) → x < 2 ^ 32 → take 8 (print 16 8 x ++ t) ≡ print 16 8 x
    field x t h = take-append_self 8 (print 16 8 x) t (sym (length-print8 x h))

    behind : (x : ℕ) (t : List ℕ) → x < 2 ^ 32 → drop 8 (print 16 8 x ++ t) ≡ t
    behind x t h = drop-append_self 8 (print 16 8 x) t (sym (length-print8 x h))

-- The text of a GID of four 32-bit words is read back as that GID, whatever stands behind it in
-- the buffer and in `v32`.
pub wire_gid_to_gid-gid_to_wire_gid :
    (g : Gid) (v32 : ℕ) (rest : List ℕ)
    → IsGid g
    → wire_gid_to_gid (gid_to_wire_gid g ++ rest) v32 ≡ g
unfolding gid_to_wire_gid
wire_gid_to_gid-gid_to_wire_gid g v32 rest v =
    ap (λ s. wire_gid_to_gid s v32) (simp append_assoc)
    ∙ wire_fields (swap g.w0) (swap g.w1) (swap g.w2) (swap g.w3) v32 rest (swap-lt g.w0)
        (swap-lt g.w1) (swap-lt g.w2) (swap-lt g.w3)
    ∙ rw (
      swap-swap g.w0 v.small0,
      swap-swap g.w1 v.small1,
      swap-swap g.w2 v.small2,
      swap-swap g.w3 v.small3,
    )

-- The text is 32 bytes long, so that with its NUL it fills `char gid[33]`.
pub length-gid_to_wire_gid : (g : Gid) → length (gid_to_wire_gid g) ≡ 32
unfolding gid_to_wire_gid
length-gid_to_wire_gid g = omega (
  arith,
  length-print8 (swap g.w0) (swap-lt g.w0),
  length-print8 (swap g.w1) (swap-lt g.w1),
  length-print8 (swap g.w2) (swap-lt g.w2),
  length-print8 (swap g.w3) (swap-lt g.w3),
  length-append (print 16 8 (swap g.w0))
      (print 16 8 (swap g.w1) ++ (print 16 8 (swap g.w2) ++ print 16 8 (swap g.w3))),
  length-append (print 16 8 (swap g.w1)) (print 16 8 (swap g.w2) ++ print 16 8 (swap g.w3)),
  length-append (print 16 8 (swap g.w2)) (print 16 8 (swap g.w3)),
)

pub gid_to_wire_gid-IsGraph : (g : Gid) → All IsGraph (gid_to_wire_gid g)
unfolding gid_to_wire_gid
gid_to_wire_gid-IsGraph g =
    All-append IsGraph (print 16 8 (swap g.w0)) _ (print-IsGraph 16 8 (swap g.w0)) (
      All-append IsGraph (print 16 8 (swap g.w1)) _ (print-IsGraph 16 8 (swap g.w1)) (
        All-append IsGraph (print 16 8 (swap g.w2)) _ (print-IsGraph 16 8 (swap g.w2))
          (print-IsGraph 16 8 (swap g.w3))))
