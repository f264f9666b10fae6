-- ===== src/Text/Numbers.antt =====
-- A printed number is read back.
use mathlib.Core.List.{append_assoc}
use native.Mathlib.Nat.{div-add-mod', mod-lt, pow-zero, pow-suc}
use workd.Prelude.{
  ℕ, zero, suc, ◌+◌, ◌*◌, ◌/◌, ◌%◌, ◌^◌, ◌≤◌, ◌<◌, ◌≡◌, refl, ap, ◌∙◌, ◌⊎◌, inl, inr, none, some,
  List, [], ◌∷◌, ◌++◌, arith, ne_==, All, All-append, length, length-append, lt→ltb,
}
use workd.Text.{
  string_at, is_space, word, digit, value, fixed, width, print, scan_digits, scan, colon,
}

-- A base of the code.
pub data IsBase : ℕ → Type 0 where
  ten : {b : ℕ} → b ≡ 10 → IsBase b
  sixteen : {b : ℕ} → b ≡ 16 → IsBase b

value-digit : (b d : ℕ) → IsBase b → d < b → value b (digit d) ≡ some d
unfolding value digit
value-digit b d (ten e) h = ground arith
value-digit b d (sixteen e) h = ground arith

pub length-fixed : (b w x : ℕ) → length (fixed b w x) ≡ w
unfolding fixed
length-fixed b zero x = refl
length-fixed b (suc w) x =
    omega (arith, length-append (fixed b w (x / b)) (digit (x % b) ∷ []), length-fixed b w (x / b))

base-pos : (b : ℕ) → IsBase b → 0 < b
base-pos b (ten e) = omega (arith, e)
base-pos b (sixteen e) = omega (arith, e)

scan_digits_step :
    (b limit acc d : ℕ) (rest : List ℕ)
    → IsBase b
    → d < b
    → scan_digits b (suc limit) acc (digit d ∷ rest) ≡ scan_digits b limit (acc * b + d) rest
unfolding scan_digits
scan_digits_step b limit acc d rest i h = rw (value-digit b d i h, scan_digits)

-- The digits are read into the accumulator, whatever follows.
scan_digits-fixed :
    (b w limit acc x : ℕ) (rest : List ℕ)
    → IsBase b
    → x < b ^ w
    → scan_digits b (w + limit) acc (fixed b w x ++ rest)
      ≡ scan_digits b limit (acc * b ^ w + x) rest
unfolding fixed
scan_digits-fixed b zero limit acc x rest i h =
    let l : 0 + limit ≡ limit = omega arith in
    let e : acc * b ^ 0 + x ≡ acc =
      omega (arith, h, pow-zero b, ap (λ (t : ℕ). acc * t) (pow-zero b)) in
    rw (l, e)
scan_digits-fixed b (suc w) limit acc x rest i h =
    rw (l, append_assoc)
      (scan_digits-fixed b w (suc limit) acc (x / b) (digit (x % b) ∷ rest) i high
        ∙ scan_digits_step b limit (acc * b ^ w + x / b) (x % b) rest i (mod-lt x (base-pos b i))
        ∙ ap (λ a. scan_digits b limit a rest) total)
  where
    l : suc w + limit ≡ w + suc limit
    l = omega arith

    high : x / b < b ^ w
    high = grind (arith, h, pow-suc b w, div-add-mod' x b, base-pos b i)

    total : (acc * b ^ w + x / b) * b + x % b ≡ acc * b ^ suc w + x
    total = omega (arith, ap (λ (t : ℕ). acc * t) (pow-suc b w), div-add-mod' x b)

-- The field ends at the end of the text, at its width, or in front of what is no digit.
pub IsEnd : ℕ → List ℕ → Type 0
IsEnd b [] = Unit {0}
IsEnd b (c ∷ s) = value b c ≡ none

scan_digits-end :
    (b limit acc : ℕ) (rest : List ℕ) → IsEnd b rest → scan_digits b limit acc rest ≡ (acc, rest)
unfolding scan_digits IsEnd
scan_digits-end b zero acc rest h = refl
scan_digits-end b (suc limit) acc [] h = refl
scan_digits-end b (suc limit) acc (c ∷ s) h = rw (h, scan_digits)

fixed-cons :
    (b w x : ℕ) → (d : ℕ) × (s : List ℕ) × (fixed b (suc w) x ≡ digit d ∷ s) × (IsBase b → d < b)
unfolding fixed
fixed-cons b zero x = (x % b, [], refl, λ i. mod-lt x (base-pos b i))
fixed-cons b (suc w) x =
    let (d, s, e, k) = fixed-cons b w (x / b) in (d, s ++ digit (x % b) ∷ [], rw e, k)

pub print-fixed : (b w x : ℕ) → x < b ^ w → print b w x ≡ fixed b w x
unfolding print
print-fixed b w x h = rw (lt→ltb x (b ^ w) h, width)

scan_start :
    (b limit d : ℕ) (t : List ℕ)
    → IsBase b
    → d < b
    → scan b limit (digit d ∷ t) ≡ some (scan_digits b limit 0 (digit d ∷ t))
unfolding scan
scan_start b limit d t i h = rw (value-digit b d i h, scan)

scan-fixed :
    (b w limit x : ℕ) (rest : List ℕ)
    → IsBase b
    → scan b limit (fixed b (suc w) x ++ rest)
      ≡ some (scan_digits b limit 0 (fixed b (suc w) x ++ rest))
scan-fixed b w limit x rest i =
    let (d, s, e, k) = fixed-cons b w x in rw e (scan_start b limit d (s ++ rest) i (k i))

scan_digits-stop :
    (b limit acc : ℕ) (rest : List ℕ)
    → (limit ≡ 0) ⊎ IsEnd b rest
    → scan_digits b limit acc rest ≡ (acc, rest)
unfolding scan_digits
scan_digits-stop b limit acc rest (inl e) = rw e
scan_digits-stop b limit acc rest (inr e) = scan_digits-end b limit acc rest e

-- A number of at most `w + 1` digits, printed in a field of that width, is read back by a
-- conversion that is at least as wide, and what follows the field is left, if the conversion is
-- just as wide or no digit follows.
pub scan-print :
    (b w limit x : ℕ) (rest : List ℕ)
    → IsBase b
    → x < b ^ suc w
    → (limit ≡ 0) ⊎ IsEnd b rest
    → scan b (suc w + limit) (print b (suc w) x ++ rest) ≡ some (x, rest)
scan-print b w limit x rest i h stop = rw (print-fixed b (suc w) x h) (
    scan-fixed b w (suc w + limit) x rest i
    ∙ ap some (
        scan_digits-fixed b (suc w) limit 0 x rest i h
        ∙ scan_digits-stop b limit (0 * b ^ suc w + x) rest stop
        ∙ zero_add))
  where
    zero_add : ◌≡◌ {A = ℕ × List ℕ} (0 * b ^ suc w + x, rest) (x, rest)
    zero_add = rw (let e : 0 * b ^ suc w + x ≡ x = omega arith in e)

-- No NUL and no white space.
abbrev pub IsGraph : ℕ → Type 0
IsGraph c = 48 ≤ c

fixed-IsGraph : (b w x : ℕ) → All IsGraph (fixed b w x)
unfolding fixed digit
fixed-IsGraph b zero x = tt
fixed-IsGraph b (suc w) x =
    All-append IsGraph (fixed b w (x / b)) (digit (x % b) ∷ []) (fixed-IsGraph b w (x / b))
      (ground arith, tt)

pub print-IsGraph : (b w x : ℕ) → All IsGraph (print b w x)
unfolding print
print-IsGraph b w x = fixed-IsGraph b (width 64 b w x) x

pub string_at-append : (s t : List ℕ) → All IsGraph s → string_at (s ++ 0 ∷ t) ≡ some s
unfolding string_at
string_at-append [] t h = refl
string_at-append (c ∷ s) t h = rw (ne_== c 0 (omega (arith, h.0)), string_at-append s t h.1)

pub word-graph : (s : List ℕ) → All IsGraph s → word s ≡ s
unfolding word is_space
word-graph [] h = refl
word-graph (c ∷ s) h = ground (arith, h.0, word-graph s h.1)

pub colon-cons : (s : List ℕ) → colon (58 ∷ s) ≡ some s
unfolding colon
colon-cons s = refl

pub colon-IsEnd : (b : ℕ) (s : List ℕ) → IsBase b → IsEnd b (58 ∷ s)
unfolding value IsEnd
colon-IsEnd b s (ten e) = rw e
colon-IsEnd b s (sixteen e) = rw e
