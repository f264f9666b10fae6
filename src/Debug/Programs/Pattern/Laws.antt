-- ===== src/Debug/Programs/Pattern/Laws.antt =====
-- The check accepts what the client filled.
use mathlib.Core.List.{append_assoc}
use workd.Prelude.{
  ℕ, zero, suc, ◌+◌, ◌*◌, ◌≤◌, ◌<◌, ◌≡◌, ◌↔◌, refl, sym, ap, ◌∙◌, inl, inr, some, Option-cases,
  Bool, true, false, List, [], ◌∷◌, ◌++◌, leb, length, length-append, length-replicate, length-drop,
  drop, replicate, copy_to-append, if◌then◌else◌, arith, lt→ltb, ge→ltb,
}
use workd.Prelude.Outcome.{Outcome, ok, fault}
use workd.Debug.Programs.Pattern.{next, fill_from, fill, init_mem, same, check_from, check}

-- `n` letters, `unit` bytes of each.
pub letters : ℕ → ℕ → ℕ → ℕ → ℕ → List ℕ
letters unit first last zero ch = []
letters unit first last (suc n) ch =
    replicate unit ch ++ letters unit first last n (next first last ch)

fits : (a b : ℕ) → a ≤ b → leb a b ≡ true
fits a b h = ground arith

module _ (unit first last : ℕ) (some_unit : 0 < unit) where
  fill_from-letters :
      (n fuel : ℕ) (pre junk : List ℕ) (bytes ch : ℕ)
      → length junk ≡ n * unit
      → bytes ≡ length pre + n * unit
      → n < fuel
      → fill_from unit first last bytes fuel (pre ++ junk) (length pre) ch
        ≡ ok (pre ++ letters unit first last n ch)
  unfolding fill_from letters
  fill_from-letters n zero pre junk bytes ch e b h = absurd (omega (arith, h))
  fill_from-letters zero (suc fuel) pre [] bytes ch e b h =
      rw (ge→ltb (length pre) bytes (omega (arith, b)), fill_from) refl
  fill_from-letters zero (suc fuel) pre (x ∷ junk) bytes ch e b h = absurd (omega (arith, e))
  fill_from-letters (suc n) (suc fuel) pre junk bytes ch e b h =
      rw
        (
          lt→ltb (length pre) bytes (grind (arith, b, some_unit)),
          fits (length pre + unit) (length (pre ++ junk))
              (omega (arith, length-append pre junk, e)),
          fill_from,
        )
        (ap (λ m. fill_from unit first last bytes fuel m (length pre + unit) (next first last ch))
            (copy_to-append pre junk (replicate unit ch))
          ∙ ap
              (λ i.
                fill_from unit first last bytes fuel
                  ((pre ++ replicate unit ch) ++ drop (length (replicate unit ch)) junk) i
                  (next first last ch))
              (sym long)
          ∙ fill_from-letters n fuel (pre ++ replicate unit ch)
              (drop (length (replicate unit ch)) junk) bytes (next first last ch)
              (omega
                (arith, length-drop (length (replicate unit ch)) junk, length-replicate unit ch, e))
              (omega (arith, long, b)) (omega (arith, h))
          ∙ simp append_assoc)
    where
      long : length (pre ++ replicate unit ch) ≡ length pre + unit
      long = omega (arith, length-append pre (replicate unit ch), length-replicate unit ch)

same-replicate : (ch n : ℕ) (s : List ℕ) → same ch n (replicate n ch ++ s) ≡ some true
unfolding same
same-replicate ch zero s = refl
same-replicate ch (suc n) s = ground (arith, same-replicate ch n s)

same-true : (ch n : ℕ) (s : List ℕ) → same ch n s ≡ some true → s ≡ replicate n ch ++ drop n s
unfolding same
same-true ch zero s h = refl
same-true ch (suc n) [] h = cc
same-true ch (suc n) (c ∷ s) h = ground (arith, same-true ch n s)

abbrev xx_letters : ℕ → ℕ → List ℕ
xx_letters n ch = letters 4 65 90 n ch

length-letters : (n ch : ℕ) → length (xx_letters n ch) ≡ n * 4
unfolding letters
length-letters zero ch = refl
length-letters (suc n) ch = omega (
  arith,
  length-append (replicate 4 ch) (xx_letters n (next 65 90 ch)),
  length-replicate 4 ch,
  length-letters n (next 65 90 ch),
)

-- One round of the check, by what it reads.
check_right :
    (bytes fuel cur ch : ℕ) (s : List ℕ)
    → cur < bytes
    → same ch 4 s ≡ some true
    → check_from bytes (suc fuel) s cur ch
      ≡ check_from bytes fuel (drop 4 s) (cur + 4) (next 65 90 ch)
unfolding check_from
check_right bytes fuel cur ch s h e = rw (lt→ltb cur bytes h, e, check_from) refl

check_wrong :
    (bytes fuel cur ch : ℕ) (s : List ℕ)
    → cur < bytes
    → check_from bytes (suc fuel) s cur ch ≡ ok true
    → same ch 4 s ≡ some true
unfolding check_from
check_wrong bytes fuel cur ch s h e = elim (Option-cases (same ch 4 s)) [
  | inl n ↦ absurd (failed (rw (lt→ltb cur bytes h, n, check_from) at e))
  | inr (true, t) ↦ t
  | inr (false, f) ↦
      absurd (refused (leb 15 (length s)) (rw (lt→ltb cur bytes h, f, check_from) at e))
]
  where
    failed : ◌≡◌ {A = Outcome Bool} fault (ok true) → ⊥
    failed p = cc

    refused : (b : Bool) → ◌≡◌ {A = Outcome Bool} (if b then ok false else fault) (ok true) → ⊥
    refused true p = cc
    refused false p = cc

check_from-letters :
    (n fuel cur ch : ℕ)
    → n < fuel
    → check_from (cur + n * 4) fuel (xx_letters n ch) cur ch ≡ ok true
unfolding check_from letters
check_from-letters n zero cur ch h = absurd (omega (arith, h))
check_from-letters zero (suc fuel) cur ch h =
    rw (ge→ltb cur (cur + 0 * 4) (omega arith), check_from) refl
check_from-letters (suc n) (suc fuel) cur ch h =
    check_right (cur + suc n * 4) fuel cur ch (xx_letters (suc n) ch) (omega arith)
      (same-replicate ch 4 (xx_letters n (next 65 90 ch)))
    ∙ ap (λ b. check_from b fuel (xx_letters n (next 65 90 ch)) (cur + 4) (next 65 90 ch))
        (omega arith)
    ∙ check_from-letters n fuel (cur + 4) (next 65 90 ch) (omega (arith, h))

letters-check_from :
    (n fuel cur ch : ℕ) (s : List ℕ)
    → n < fuel
    → length s ≡ n * 4
    → check_from (cur + n * 4) fuel s cur ch ≡ ok true
    → s ≡ xx_letters n ch
unfolding letters
letters-check_from n zero cur ch s h e c = absurd (omega (arith, h))
letters-check_from zero (suc fuel) cur ch [] h e c = refl
letters-check_from zero (suc fuel) cur ch (x ∷ s) h e c = absurd (omega (arith, e))
letters-check_from (suc n) (suc fuel) cur ch s h e c =
    let right = check_wrong (cur + suc n * 4) fuel cur ch s (omega arith) c in
    same-true ch 4 s right
    ∙ ap (λ r. replicate 4 ch ++ r)
        (letters-check_from n fuel (cur + 4) (next 65 90 ch) (drop 4 s) (omega (arith, h))
          (omega (arith, e, length-drop 4 s))
          (ap (λ b. check_from b fuel (drop 4 s) (cur + 4) (next 65 90 ch)) (omega arith)
            ∙ sym (check_right (cur + suc n * 4) fuel cur ch s (omega arith) right)
            ∙ c))

-- What client fills its memory with.
abbrev pub test_data : ℕ → List ℕ
test_data n = xx_letters n 65

pub length-test_data : (n : ℕ) → length (test_data n) ≡ n * 4
length-test_data n = length-letters n 65

pub fill-test_data :
    (n : ℕ) (mem : List ℕ) → length mem ≡ n * 4 → fill (n * 4) mem ≡ ok (test_data n)
unfolding fill
fill-test_data n mem e =
    fill_from-letters 4 65 90 (omega arith) n (suc (n * 4)) [] mem (n * 4) 65 e (omega arith)
      (omega arith)

pub check-test_data : (n : ℕ) → check (n * 4) (test_data n) ≡ ok true
unfolding check
check-test_data n =
    ap (λ b. check_from b (suc (n * 4)) (xx_letters n 65) 0 65) (omega arith)
    ∙ check_from-letters n (suc (n * 4)) 0 65 (omega arith)

-- The check of the server accepts exactly what the client fills: for a number of bytes that is a
-- multiple of four, and memory of that size on both sides, `client` fills its memory, and the
-- loop of `server` accepts the server's memory where it holds the same bytes and in no other case.
pub check-fill :
    (n : ℕ) (mem got : List ℕ)
    → length mem ≡ n * 4
    → length got ≡ n * 4
    → (ts : List ℕ) × (fill (n * 4) mem ≡ ok ts) × ((check (n * 4) got ≡ ok true) ↔ (got ≡ ts))
unfolding check
check-fill n mem got e f = (
  test_data n,
  fill-test_data n mem e,
  (
    λ c.
        letters-check_from n (suc (n * 4)) 0 65 got (omega arith) f
          (ap (λ b. check_from b (suc (n * 4)) got 0 65) (omega arith) ∙ c),
    λ p. ap (check (n * 4)) p ∙ check-test_data n,
  ),
)

-- `init_mem` fills all its memory, whose size is a multiple of 128.
pub init_mem-letters :
    (n : ℕ) (mem : List ℕ)
    → length mem ≡ n * 128
    → init_mem (n * 128) mem ≡ ok (letters 128 97 122 n 97)
unfolding init_mem
init_mem-letters n mem e =
    fill_from-letters 128 97 122 (omega arith) n (suc (n * 128)) [] mem (n * 128) 97 e (omega arith)
      (omega arith)
