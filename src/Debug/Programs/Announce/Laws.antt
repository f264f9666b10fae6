-- ===== src/Debug/Programs/Announce/Laws.antt =====
-- What reg_memory registers and writes.
use mathlib.Core.List.{append_assoc, append-nil}
use native.Mathlib.Nat.{div-add-mod'}
use workd.Prelude.{
  ℕ, zero, suc, ◌+◌, ◌*◌, ◌/◌, ◌%◌, ◌^◌, ◌≤◌, ◌<◌, ◌≡◌, refl, sym, ap, ◌∙◌, ◌⊎◌, inl, inr, Option,
  some, true, Bool-cases, List, [], ◌∷◌, ◌++◌, ◌==◌, map, length, length-append, length-drop, drop,
  copy_to-append, leb, arith, lt→ltb, ge→ltb, ==_iff, ==_ne,
}
use workd.Prelude.Outcome.{Outcome, ok, fault}
use workd.Debug.Verbs.{Registration, mr_recorded, Mem, rdma_reg_mr}
use workd.Debug.Slices.{Region, entry}
use workd.Debug.Slices.Laws.{body, length-entry}
use workd.Debug.Bulk.Regions.{Tile}
use workd.Debug.Door.{region}
use workd.Debug.Programs.Announce.{Announcing, reg_from, tg, reg_memory}

fits : (a b : ℕ) → a ≤ b → leb a b ≡ true
fits a b h = ground arith

module _ (key : ℕ → ℕ → ℕ × ℕ) (reg : ℕ → ℕ → Registration)
    (registers : (a l : ℕ) → reg a l ≡ mr_recorded (key a l))
    (keys_small : (a l : ℕ) → (key a l).1 < 2 ^ 32) (total ptr bs num : ℕ) (some_bytes : 0 < bs)
    (small : ptr + total ≤ 10 ^ 16) where
  mem_at : ℕ → Mem
  mem_at cur = record {
    buf = ptr + cur;
    size = bs;
    lkey = (key (ptr + cur) bs).0;
    rkey = (key (ptr + cur) bs).1;
  }

  -- `n` regions from `cur` on.
  pieces : ℕ → ℕ → List Mem
  pieces zero cur = []
  pieces (suc n) cur = mem_at cur ∷ pieces n (cur + bs)

  pieces-Tile : (n cur : ℕ) → cur + n * bs ≡ total → Tile bs ptr total cur (pieces n cur)
  unfolding pieces mem_at
  pieces-Tile zero cur e = omega (arith, e)
  pieces-Tile (suc n) cur e =
      (refl, some_bytes, omega arith, pieces-Tile n (cur + bs) (omega (arith, e)))

  length-pieces : (n cur : ℕ) → length (pieces n cur) ≡ n
  unfolding pieces
  length-pieces zero cur = refl
  length-pieces (suc n) cur = ap suc (length-pieces n (cur + bs))

  abbrev from : ℕ → ℕ → ℕ → List Mem → List ℕ → Outcome (Option Announcing)
  from fuel cur i mems text =
      reg_from reg total ptr bs num fuel cur i (record { mems = mems; text = text })

  long : (cur : ℕ) → cur < total → length (entry (region (mem_at cur))) ≡ 25
  unfolding mem_at
  long cur h =
      length-entry (region (mem_at cur)) (omega (arith, small, h), keys_small (ptr + cur) bs)

  one_round :
      (fuel cur : ℕ) (mems : List Mem) (pre junk : List ℕ)
      → cur < total
      → length mems < num
      → 26 ≤ length junk
      → length pre + 25 ≤ 2147483647
      → from (suc fuel) cur (length pre) mems (pre ++ junk)
        ≡ from fuel
            (cur + bs)
            (length (pre ++ entry (region (mem_at cur))))
            (mems ++ mem_at cur ∷ [])
            ((pre ++ entry (region (mem_at cur))) ++ (0 ∷ drop 26 junk))
  unfolding reg_from rdma_reg_mr mem_at
  one_round fuel cur mems pre junk h few room int =
      rw
        (
          lt→ltb cur total h,
          lt→ltb (length mems) num few,
          rdma_reg_mr,
          registers (ptr + cur) bs,
          fits (length pre + length s) (length (pre ++ junk))
              (omega (arith, nul, length-append pre junk, room)),
          fits (length pre + 25) 2147483647 int,
          reg_from,
        )
        (ap (from fuel (cur + bs) (length pre + 25) (mems ++ mem_at cur ∷ [])) (
            copy_to-append pre junk s
            ∙ ap (λ n. (pre ++ s) ++ drop n junk) nul
            ∙ append_assoc pre s (drop 26 junk)
            ∙ ap (λ t. pre ++ t) (append_assoc (entry r) (0 ∷ []) (drop 26 junk))
            ∙ sym (append_assoc pre (entry r) (0 ∷ drop 26 junk)))
          ∙ ap
              (λ i.
                from fuel (cur + bs) i (mems ++ mem_at cur ∷ [])
                  ((pre ++ entry r) ++ (0 ∷ drop 26 junk)))
              (omega (arith, length-append pre (entry r), long cur h)))
    where
      r : Region
      r = region (mem_at cur)

      s : List ℕ
      s = entry r ++ (0 ∷ [])

      nul : length s ≡ 26
      nul = omega (arith, length-append (entry r) (0 ∷ []), long cur h)

  room_left :
      (cur : ℕ) (junk : List ℕ) (n : ℕ)
      → suc n * 25 + 1 ≤ length junk
      → n * 25 + 1 ≤ length (0 ∷ drop 26 junk)
  room_left cur junk n h = omega (arith, h, length-drop 26 junk)

  further :
      (cur : ℕ) (pre : List ℕ) (n : ℕ)
      → cur < total
      → length pre + suc n * 25 ≤ 2147483647
      → length (pre ++ entry (region (mem_at cur))) + n * 25 ≤ 2147483647
  further cur pre n h int =
      omega (arith, length-append pre (entry (region (mem_at cur))), long cur h, int)

  -- A whole number of regions.
  ends :
      (n fuel cur : ℕ) (mems : List Mem) (pre junk : List ℕ)
      → cur + n * bs ≡ total
      → length mems + n ≤ num
      → n * 25 + 1 ≤ length junk
      → length pre + n * 25 ≤ 2147483647
      → n < fuel
      → (tail : List ℕ) × (from fuel cur (length pre) mems (pre ++ junk)
          ≡ ok (
              some (record {
                mems = mems ++ pieces n cur;
                text = pre ++ (body (map region (pieces n cur)) ++ tail);
              })))
  unfolding pieces reg_from
  ends n zero cur mems pre junk e few room int h = absurd (omega (arith, h))
  ends zero (suc fuel) cur mems pre junk e few room int h =
      (junk, rw (ge→ltb cur total (omega (arith, e)), append-nil, reg_from) refl)
  ends (suc n) (suc fuel) cur mems pre junk e few room int h =
      let (tail, f) =
        ends n fuel (cur + bs) (mems ++ mem_at cur ∷ []) (pre ++ entry (region (mem_at cur)))
          (0 ∷ drop 26 junk) (omega (arith, e))
          (omega (arith, few, length-append mems (mem_at cur ∷ []))) (room_left cur junk n room)
          (further cur pre n (omega (arith, e, some_bytes)) int) (omega (arith, h)) in
      (
        tail,
        one_round fuel cur mems pre junk (omega (arith, e, some_bytes)) (omega (arith, few))
              (omega (arith, room)) (omega (arith, int))
            ∙ f
            ∙ simp append_assoc,
      )

  -- One region more than the array has room for.
  overruns :
      (n fuel cur : ℕ) (mems : List Mem) (pre junk : List ℕ)
      → cur + n * bs < total
      → length mems + n ≡ num
      → n * 25 + 1 ≤ length junk
      → length pre + n * 25 ≤ 2147483647
      → n < fuel
      → from fuel cur (length pre) mems (pre ++ junk) ≡ fault
  unfolding reg_from
  overruns n zero cur mems pre junk e full room int h = absurd (omega (arith, h))
  overruns zero (suc fuel) cur mems pre junk e full room int h =
      rw
        (
          lt→ltb cur total (omega (arith, e)),
          ge→ltb (length mems) num (omega (arith, full)),
          reg_from,
        )
        refl
  overruns (suc n) (suc fuel) cur mems pre junk e full room int h =
      one_round fuel cur mems pre junk (omega (arith, e)) (omega (arith, full))
        (omega (arith, room)) (omega (arith, int))
      ∙ overruns n fuel (cur + bs) (mems ++ mem_at cur ∷ []) (pre ++ entry (region (mem_at cur)))
          (0 ∷ drop 26 junk) (omega (arith, e))
          (omega (arith, full, length-append mems (mem_at cur ∷ []))) (room_left cur junk n room)
          (further cur pre n (omega (arith, e)) int) (omega (arith, h))

text_fits : (n bs : ℕ) → 25 ≤ bs → n * bs ≤ 2147483648 → 0 + n * 25 ≤ 2147483647
text_fits n bs h e = let less : n * 25 ≤ n * bs = grind (arith, h) in omega (arith, less, e)

-- A run that announces `num` regions, which tile the memory, by the text of their addresses and
-- keys.
pub record Announced (ptr bs num : ℕ) (o : Outcome (Option Announcing)) : Type 0 where
  pub done : Announcing
  pub returns : o ≡ ok (some done)
  pub tiles : Tile bs ptr tg 0 done.mems
  pub count : length done.mems ≡ num
  pub tail : List ℕ
  pub told : done.text ≡ body (map region done.mems) ++ tail

-- `reg_memory` of regread.cpp is right for sizes that divide its 2 GiB and for no other: with
-- regions of at least 25 bytes, for which the length of the text fits `int`, all of them registered
-- under 32-bit keys, each with memory for its record, addresses of at most 16 digits, one byte behind the text that may be written, and more rounds than regions, if the size
-- divides the memory the regions tile it, there are just as many as the array has room for, and
-- the text has all their addresses and keys in their order; if not, there is one region more, which
-- is written behind the array.
pub reg_memory_lem :
    (key : ℕ → ℕ → ℕ × ℕ) (reg : ℕ → ℕ → Registration) (ptr bs fuel : ℕ) (text : List ℕ)
    → ((a l : ℕ) → reg a l ≡ mr_recorded (key a l))
    → ((a l : ℕ) → (key a l).1 < 2 ^ 32)
    → ptr + tg ≤ 10 ^ 16
    → 25 ≤ bs
    → length text ≡ tg / bs * 25 + 1
    → tg / bs < fuel
    → ((tg % bs ≡ 0) × Announced ptr bs (tg / bs) (reg_memory reg fuel (tg / bs) ptr bs text))
      ⊎ ((0 < tg % bs) × (reg_memory reg fuel (tg / bs) ptr bs text ≡ fault))
unfolding reg_memory
reg_memory_lem key reg ptr bs fuel text registers keys_small small large room h =
    let all : tg / bs * bs + tg % bs ≡ tg = div-add-mod' tg bs in
    let some_bytes : 0 < bs = omega (arith, large) in
    let int : 0 + tg / bs * 25 ≤ 2147483647 = text_fits (tg / bs) bs large (omega (arith, all)) in
    elim (Bool-cases (tg % bs == 0)) [
      | inl e ↦
          let whole : tg % bs ≡ 0 = (==_iff (tg % bs) 0).0 e in
          let mems : List Mem =
            pieces key reg registers keys_small tg ptr bs (tg / bs) some_bytes small (tg / bs) 0 in
          let (tail, f) =
            ends key reg registers keys_small tg ptr bs (tg / bs) some_bytes small (tg / bs) fuel 0
              [] [] text (omega (arith, all, whole)) (omega arith) (omega (arith, room)) int h in
          inl (
            whole,
            record {
              done = record { mems = mems; text = body (map region mems) ++ tail };
              returns = f;
              tiles =
                  pieces-Tile key reg registers keys_small tg ptr bs (tg / bs) some_bytes small
                    (tg / bs) 0 (omega (arith, all, whole));
              count =
                  length-pieces key reg registers keys_small tg ptr bs (tg / bs) some_bytes small
                    (tg / bs) 0;
              tail = tail;
              told = refl;
            },
          )
      | inr e ↦
          let more : 0 < tg % bs = omega (arith, ==_ne (tg % bs) 0 e) in
          inr (
            more,
            overruns key reg registers keys_small tg ptr bs (tg / bs) some_bytes small (tg / bs)
                fuel 0 [] [] text (omega (arith, all, more)) (omega arith) (omega (arith, room)) int
                h,
          )
    ]
