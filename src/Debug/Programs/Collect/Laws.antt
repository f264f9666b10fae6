-- ===== src/Debug/Programs/Collect/Laws.antt =====
-- What collect gathers.
use mathlib.Core.List.{append_assoc}
use workd.Prelude.{
  ℕ, suc, ◌+◌, ◌-◌, ◌≤◌, ◌<◌, ◌≡◌, ◌≢◌, refl, sym, ap, ◌∙◌, inl, inr, min, none, some, Bool-cases,
  List, [], ◌∷◌, ◌++◌, ltb, length, length-append, length-take, length-drop, take, drop, take_add,
  drop-drop, copy_to-append, All, arith, ltb→lt, ltb→ge,
}
use workd.Prelude.Int.{pos}
use workd.Prelude.Outcome.{ok}
use workd.Debug.Programs.Collect.{rw_size, Reading, collect_from, collect}

-- What the memory holds behind `pre` once the input is in it.
abbrev gathered : List ℕ → List ℕ → List ℕ → List ℕ
gathered pre junk input =
    let k = min (length junk) (length input) in pre ++ (take k input ++ drop k junk)

-- A step of `t` bytes on the way.
gathered-step :
    (pre junk input : List ℕ) (t : ℕ)
    → t ≤ length junk
    → t ≤ length input
    → gathered (pre ++ take t input) (drop t junk) (drop t input) ≡ gathered pre junk input
gathered-step pre junk input t h k =
    let whole : ℕ = min (length junk) (length input) in
    let part : ℕ = min (length (drop t junk)) (length (drop t input)) in
    let e : whole ≡ t + part = omega (arith, length-drop t junk, length-drop t input, h, k) in
    append_assoc pre (take t input) (take part (drop t input) ++ drop part (drop t junk))
    ∙ ap (λ x. pre ++ x)
        (sym (append_assoc (take t input) (take part (drop t input)) (drop part (drop t junk)))
          ∙ ap (λ x. x ++ drop part (drop t junk)) (sym (take_add t part input))
          ∙ ap (λ x. take (t + part) input ++ x) (drop-drop part t junk)
          ∙ ap (λ n. take n input ++ drop n junk) (sym e))

module _ (size : ℕ) where
  collect_from_lem :
      (rs : List Reading) (input pre junk : List ℕ)
      → All (λ r. r ≢ none) rs
      → length pre + length junk ≡ size
      → min (length junk) (length input) < length rs
      → collect_from size rs input (pre ++ junk) (length pre)
        ≡ ok (pos (length pre + min (length junk) (length input)), gathered pre junk input)
  unfolding collect_from
  collect_from_lem [] input pre junk good e h = absurd (omega (arith, h))
  collect_from_lem (none ∷ rs) input pre junk good e h = absurd (good.0 refl)
  collect_from_lem (some most ∷ rs) input pre junk good e h =
      let tmp : ℕ = min (suc most) (min (size - length pre) (length input)) in
      elim (Bool-cases (ltb 0 tmp)) [
        | inr done ↦
            let k0 : min (length junk) (length input) ≡ 0 = omega (arith, ltb→ge 0 tmp done, e) in
            rw (done, k0) (ap (λ n. ok (pos n, pre ++ junk)) (omega arith))
        | inl more ↦
            let some_byte : 0 < tmp = ltb→lt 0 tmp more in
            let in_input : tmp ≤ length input = omega arith in
            let in_junk : tmp ≤ length junk = omega (arith, e) in
            let long : length (take tmp input) ≡ tmp =
              omega (arith, length-take tmp input, in_input) in
            let at : length pre + tmp ≡ length (pre ++ take tmp input) =
              omega (arith, length-append pre (take tmp input), long) in
            let less : length (drop tmp junk) ≡ length junk - tmp = length-drop tmp junk in
            let fewer : length (drop tmp input) ≡ length input - tmp = length-drop tmp input in
            rw more (
              ap (λ m. collect_from size rs (drop tmp input) m (length pre + tmp))
                (copy_to-append pre junk (take tmp input))
              ∙ ap
                  (λ n.
                    collect_from size rs (drop tmp input) ((pre ++ take tmp input) ++ drop n junk)
                      (length pre + tmp))
                  long
              ∙ ap
                  (collect_from size rs (drop tmp input) ((pre ++ take tmp input) ++ drop tmp junk))
                  at
              ∙ collect_from_lem rs (drop tmp input) (pre ++ take tmp input) (drop tmp junk) good.1
                  (omega (arith, at, e, less, in_junk))
                  (omega (arith, less, fewer, some_byte, in_input, in_junk, h))
              ∙ ap
                  (λ n.
                    ok (pos n, gathered (pre ++ take tmp input) (drop tmp junk) (drop tmp input)))
                  (omega (arith, at, less, fewer, in_input, in_junk))
              ∙ ap (λ b. ok (pos (length pre + min (length junk) (length input)), b))
                  (gathered-step pre junk input tmp in_junk in_input))
      ]

-- `collect` gathers the input: where no read fails, and there are more reads than bytes, it returns
-- the number of the input's bytes, or 1 GiB if there are more, and its memory starts with these
-- bytes in their order and is as it was behind them, however the reads cut the input.
pub collect_lem :
    (rs : List Reading) (input pool : List ℕ)
    → All (λ r. r ≢ none) rs
    → length pool ≡ rw_size
    → length input < length rs
    → let k = min rw_size (length input) in
      collect rs input pool ≡ ok (pos k, take k input ++ drop k pool)
unfolding collect
collect_lem rs input pool good e h =
    collect_from_lem rw_size rs input [] pool good (omega (arith, e)) (omega (arith, h))
    ∙ ap (λ n. ok (pos n, gathered [] pool input)) (zero_add (min (length pool) (length input)))
    ∙ ap (λ n. ok (pos n, take n input ++ drop n pool)) same
  where
    zero_add : (n : ℕ) → 0 + n ≡ n
    zero_add n = omega arith

    same : min (length pool) (length input) ≡ min rw_size (length input)
    same = ap (λ n. min n (length input)) e
