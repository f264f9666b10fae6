-- ===== src/Prelude/Sized.antt =====
-- C's unsigned arithmetic at the widths that the code uses, and blocks of bytes in memory.
use Prim.Native.Nat.{ℕ, zero, suc, ◌+◌, ◌-◌, ◌%◌, ◌^◌, ◌≤◌}
use mathlib.Core.Path.{◌≡◌, refl, sym, ap, ◌∙◌}
use mathlib.Core.List.{List, [], ◌∷◌, ◌++◌, reverse, reverse-cons, append_assoc}
use native.Mathlib.Omega.{arith}
use workd.Prelude.Lists.{length, length-append, take, drop, length-take, length-drop}

-- `size_t`: 64 bits.
abbrev pub add_size : ℕ → ℕ → ℕ
add_size a b = (a + b) % 2 ^ 64

abbrev pub sub_size : ℕ → ℕ → ℕ
sub_size a b = (a + 2 ^ 64 - b) % 2 ^ 64

-- `uint32_t`
abbrev pub u32 : ℕ → ℕ
u32 a = a % 2 ^ 32

module _ {ℓ} {A : Type ℓ} where
  pub length-reverse : (xs : List A) → length (reverse xs) ≡ length xs
  length-reverse [] = refl
  length-reverse (x ∷ xs) =
      omega (
        arith,
        ap length (reverse-cons x xs),
        length-append (reverse xs) (x ∷ []),
        length-reverse xs,
      )

  pub take_all : (n : ℕ) (xs : List A) → length xs ≤ n → take n xs ≡ xs
  take_all zero [] h = refl
  take_all zero (x ∷ xs) h = absurd (omega arith)
  take_all (suc n) [] h = refl
  take_all (suc n) (x ∷ xs) h = ap (◌∷◌ x) (take_all n xs (omega arith))

  pub drop_all : (n : ℕ) (xs : List A) → length xs ≤ n → drop n xs ≡ []
  drop_all zero [] h = refl
  drop_all zero (x ∷ xs) h = absurd (omega arith)
  drop_all (suc n) [] h = refl
  drop_all (suc n) (x ∷ xs) h = drop_all n xs (omega arith)

  pub take-append_left : (n : ℕ) (xs ys : List A) → n ≤ length xs → take n (xs ++ ys) ≡ take n xs
  take-append_left zero xs ys h = refl
  take-append_left (suc n) [] ys h = absurd (omega arith)
  take-append_left (suc n) (x ∷ xs) ys h = ap (◌∷◌ x) (take-append_left n xs ys (omega arith))

  pub take-append_self : (n : ℕ) (xs ys : List A) → n ≡ length xs → take n (xs ++ ys) ≡ xs
  take-append_self zero [] ys h = refl
  take-append_self zero (x ∷ xs) ys h = absurd (omega arith)
  take-append_self (suc n) [] ys h = absurd (omega arith)
  take-append_self (suc n) (x ∷ xs) ys h = ap (◌∷◌ x) (take-append_self n xs ys (omega arith))

  pub drop-append_self : (n : ℕ) (xs ys : List A) → n ≡ length xs → drop n (xs ++ ys) ≡ ys
  drop-append_self zero [] ys h = refl
  drop-append_self zero (x ∷ xs) ys h = absurd (omega arith)
  drop-append_self (suc n) [] ys h = absurd (omega arith)
  drop-append_self (suc n) (x ∷ xs) ys h = drop-append_self n xs ys (omega arith)

  pub take-nil : (n : ℕ) → take {A = A} n [] ≡ []
  take-nil zero = refl
  take-nil (suc n) = refl

  pub drop-nil : (n : ℕ) → drop {A = A} n [] ≡ []
  drop-nil zero = refl
  drop-nil (suc n) = refl

  pub drop-drop : (m n : ℕ) (xs : List A) → drop m (drop n xs) ≡ drop (n + m) xs
  drop-drop m zero xs = ap (λ k. drop k xs) (omega arith)
  drop-drop m (suc n) [] = drop-nil m ∙ sym (drop-nil (suc n + m))
  drop-drop m (suc n) (x ∷ xs) =
      drop-drop m n xs
      ∙ ap (λ k. drop k (x ∷ xs)) (let e : suc (n + m) ≡ suc n + m = omega arith in e)

  pub take_add : (m n : ℕ) (xs : List A) → take (m + n) xs ≡ take m xs ++ take n (drop m xs)
  take_add zero n xs = ap (λ k. take k xs) (omega arith)
  take_add (suc m) n [] = take-nil (suc m + n) ∙ sym (take-nil n)
  take_add (suc m) n (x ∷ xs) =
      ap (λ k. take k (x ∷ xs)) (let e : suc m + n ≡ suc (m + n) = omega arith in e)
      ∙ ap (◌∷◌ x) (take_add m n xs)

-- `memcpy(store + at, src, length src)`: the bytes of a block of memory after the copy.
abbrev pub copy_to {ℓ} : {A : Type ℓ} → List A → ℕ → List A → List A
copy_to store at src = take at store ++ (src ++ drop (at + length src) store)

-- A copy to where `pre` ends.
pub copy_to-append {ℓ} :
    {A : Type ℓ} (pre junk s : List A)
    → copy_to (pre ++ junk) (length pre) s ≡ (pre ++ s) ++ drop (length s) junk
copy_to-append pre junk s =
    rw
      (
        take-append_self (length pre) pre junk refl,
        ← drop-drop (length s) (length pre) (pre ++ junk),
        drop-append_self (length pre) pre junk refl,
        append_assoc,
      )
      refl

module _ {ℓ} {A : Type ℓ} (store : List A) (at : ℕ) (src : List A)
    (fits : at + length src ≤ length store) where
  pub length-copy_to : length (copy_to store at src) ≡ length store
  length-copy_to = omega (
    arith,
    length-append (take at store) (src ++ drop (at + length src) store),
    length-append src (drop (at + length src) store),
    length-take at store,
    length-drop (at + length src) store,
  )

  -- The bytes up to the end of the copy.
  pub take-copy_to :
      (n : ℕ) → n ≡ at + length src → take n (copy_to store at src) ≡ take at store ++ src
  take-copy_to n e =
      ap (take n) (append_assoc' (take at store) src (drop (at + length src) store))
      ∙ take-append_self n (take at store ++ src) _
          (omega (arith, e, length-append (take at store) src, length-take at store))
    where
      append_assoc' : (xs ys zs : List A) → xs ++ (ys ++ zs) ≡ (xs ++ ys) ++ zs
      append_assoc' [] ys zs = refl
      append_assoc' (x ∷ xs) ys zs = ap (◌∷◌ x) (append_assoc' xs ys zs)
