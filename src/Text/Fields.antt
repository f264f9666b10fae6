-- ===== src/Text/Fields.antt =====
-- sscanf of a text of numbers and one word with colons between them, as the messages of
-- rdma/Infiniband.cc and debug/rdma_socket.c have: "%x:", "%lu:" and "%s".
use workd.Prelude.{
  ℕ, zero, suc, ◌+◌, ◌^◌, ◌≤◌, ◌<◌, ◌≡◌, none, some, List, ◌∷◌, ◌++◌, arith, length, length-append,
  drop, All, All-append, leb, ltb, lt→ltb, ge→ltb, Bool-cases, if◌then◌else◌, inl, inr,
}
use native.Mathlib.Decide.{ℕ_discrete}
use workd.Prelude.Outcome.{Outcome, ok, fault}
use workd.Text.{print, width, scan, colon, word}
use workd.Text.Numbers.{
  IsBase, scan-print, length-fixed, print-fixed, IsGraph, print-IsGraph, word-graph, colon-cons,
  colon-IsEnd,
}

-- What sscanf has assigned: the numbers' fields, and the `char gid[33]` of the word.
abbrev pub Scanned {ℓ} : Type ℓ → Type ℓ
Scanned A = A × List ℕ

pub length-print : (b w x : ℕ) → x < b ^ w → length (print b w x) ≡ w
length-print b w x h = rw (print-fixed b w x h) (length-fixed b w x)

width_min : (fuel b w x : ℕ) → w ≤ width fuel b w x
unfolding width
width_min zero b w x = omega arith
width_min (suc fuel) b w x = ground (arith, width_min fuel b (suc w) x)

-- A field is never shorter than its width, and longer for a number that does not fit.
pub length-print_min : (b w x : ℕ) → w ≤ length (print b w x)
unfolding print
length-print_min b w x = rw length-fixed (width_min 64 b w x)

pub length-print_over : (b w x : ℕ) → b ^ w ≤ x → suc w ≤ length (print b w x)
unfolding print
length-print_over b w x h = rw (length-fixed, ge→ltb x (b ^ w) h, width) (width_min 63 b (suc w) x)

width_max : (fuel b w k x : ℕ) → w ≤ k → x < b ^ k → width fuel b w x ≤ k
unfolding width
width_max zero b w k x h small = h
width_max (suc fuel) b w k x h small = elim (ℕ_discrete w k) [
  | yes e ↦ rw (lt→ltb x (b ^ w) (rw e small), width) h
  | no n ↦ elim (Bool-cases (ltb x (b ^ w))) [
    | inl t ↦ rw (t, width) h
    | inr f ↦ rw (f, width) (width_max fuel b (suc w) k x (omega (arith, h, n)) small)
  ]
]

-- Nor is it longer than the number's digits.
pub length-print_max : (b w k x : ℕ) → w ≤ k → x < b ^ k → length (print b w x) ≤ k
unfolding print
length-print_max b w k x h small = rw length-fixed (width_max 64 b w k x h small)

module _ {ℓ} {A : Type ℓ} where
  -- %s into `gid`: a longer word is written past its end.
  pub scan_gid : List ℕ → Scanned A → Outcome (Scanned A)
  scan_gid s (im, gid) =
      let w = word s in
      if leb (length w) 0
      then ok (im, gid)
      else if leb (length w) 32
      then ok (im, w ++ (0 ∷ drop (length w + 1) gid))
      else fault

  -- A number with the literal behind it, which `store` converts and stores; where the text does not
  -- fit the format the scan is over.
  unfoldable pub scan_num :
      ℕ
      → (ℕ → A → A)
      → (List ℕ → Scanned A → Outcome (Scanned A))
      → List ℕ
      → Scanned A
      → Outcome (Scanned A)
  scan_num base store next s (im, gid) = elim (scan base (length s) s) [
    | none ↦ ok (im, gid)
    | some (v, t) ↦ elim (colon t) [
      | none ↦ ok (store v im, gid)
      | some u ↦ next u (store v im, gid)
    ]
  ]

  pub scan_num-print :
      (b w x : ℕ) (store : ℕ → A → A) (next : List ℕ → Scanned A → Outcome (Scanned A)) (s : List ℕ)
      (a : Scanned A)
      → IsBase b
      → x < b ^ suc w
      → scan_num b store next (print b (suc w) x ++ (58 ∷ s)) a ≡ next s (store x a.0, a.1)
  unfolding scan_num
  scan_num-print b w x store next s a i h = rw (found, scan_num, colon-cons s)
    where
      text : List ℕ
      text = print b (suc w) x ++ (58 ∷ s)

      long : length text ≡ suc w + suc (length s)
      long = omega (arith, length-append (print b (suc w) x) (58 ∷ s), length-print b (suc w) x h)

      found : scan b (length text) text ≡ some (x, 58 ∷ s)
      found = rw long (scan-print b w (suc (length s)) x (58 ∷ s) i h (inr (colon-IsEnd b s i)))

  pub scan_gid-graph :
      (s : List ℕ) (a : Scanned A)
      → All IsGraph s
      → 0 < length s
      → length s ≤ 32
      → scan_gid s a ≡ ok (a.0, s ++ (0 ∷ drop (length s + 1) a.1))
  unfolding scan_gid
  scan_gid-graph s a h pos small = rw (word-graph s h, scan_gid) (ground arith)

-- A field and what follows it, up to the word.
pub field-IsGraph : (b w x : ℕ) (t : List ℕ) → All IsGraph t → All IsGraph (print b w x ++ (58 ∷ t))
field-IsGraph b w x t h = All-append IsGraph (print b w x) _ (print-IsGraph b w x) (omega arith, h)
