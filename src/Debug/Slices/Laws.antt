-- ===== src/Debug/Slices/Laws.antt =====
-- The regions of one side are read by the other.
use mathlib.Core.List.{append_assoc, append-nil}
use workd.Prelude.{
  ℕ, ◌+◌, ◌*◌, ◌/◌, ◌^◌, ◌≤◌, ◌<◌, ◌≡◌, sym, refl, ap, ◌∙◌, none, some, true, List, [], ◌∷◌, ◌++◌,
  arith, length, length-append, length-drop, take, drop, take-append_self, drop-append_self,
  copy_to-append, All, All-append, u32, inl, leb,
}
use workd.Prelude.Outcome.{Outcome, ok, fault, ◌>>=◌}
use workd.Text.{print, string_at, scan}
use workd.Text.Fields.{field-IsGraph, length-print}
use workd.Text.Numbers.{
  ten, sixteen, IsGraph, print-IsGraph, scan-print, string_at-append, word-graph, colon-cons,
}
use workd.Debug.Slices.{
  Region, entry, fill_data, slices_text, scan_tmp, scan_entry, read_entry, read_entries,
  start_remote,
}

-- An address of at most 16 digits and a 32-bit key.
abbrev pub Fits : Region → Type 0
Fits r = (r.0 < 10 ^ 16) × (r.1 < 2 ^ 32)

-- The entries one behind the other.
abbrev pub body : List Region → List ℕ
body [] = []
body (r ∷ rs) = entry r ++ body rs

pub length-entry : (r : Region) → Fits r → length (entry r) ≡ 25
unfolding entry
length-entry (addr, rkey) h = omega (
  arith,
  length-append (print 10 16 addr) (58 ∷ print 16 8 rkey),
  length-print 10 16 addr h.0,
  length-print 16 8 rkey h.1,
)

le_leb : (a b : ℕ) → a ≤ b → leb a b ≡ true
le_leb a b h = ground arith

fill_data_lem :
    (pre junk : List ℕ) (rs : List Region)
    → All Fits rs
    → length rs * 25 + 1 ≤ length junk
    → (tail : List ℕ) × (fill_data (pre ++ junk) (length pre) rs ≡ ok (pre ++ (body rs ++ tail)))
unfolding fill_data
fill_data_lem pre junk [] h room = (junk, refl)
fill_data_lem pre junk (r ∷ rs) h room =
    let (tail, e) =
      fill_data_lem (pre ++ entry r) (0 ∷ drop 26 junk) rs h.1
        (omega (arith, room, length-drop 26 junk)) in
    (
      tail,
      rw (le_leb (length pre + length (entry r ++ (0 ∷ []))) (length (pre ++ junk)) fits, fill_data)
          (ap (λ m. fill_data m (length pre + 25) rs) next
            ∙ ap (λ i. fill_data ((pre ++ entry r) ++ (0 ∷ drop 26 junk)) i rs) at
            ∙ e
            ∙ ap ok (simp append_assoc)),
    )
  where
    long : length (entry r ++ (0 ∷ [])) ≡ 26
    long = omega (arith, length-append (entry r) (0 ∷ []), length-entry r h.0)

    fits : length pre + length (entry r ++ (0 ∷ [])) ≤ length (pre ++ junk)
    fits = omega (arith, long, length-append pre junk, room)

    next :
        take (length pre) (pre ++ junk)
          ++ ((entry r ++ (0 ∷ []))
              ++ drop (length pre + length (entry r ++ (0 ∷ []))) (pre ++ junk))
        ≡ (pre ++ entry r) ++ (0 ∷ drop 26 junk)
    next =
        copy_to-append pre junk (entry r ++ (0 ∷ []))
        ∙ ap (λ n. (pre ++ (entry r ++ (0 ∷ []))) ++ drop n junk) long
        ∙ simp append_assoc

    at : length pre + 25 ≡ length (pre ++ entry r)
    at = omega (arith, length-append pre (entry r), length-entry r h.0)

pub length-body : (rs : List Region) → All Fits rs → length (body rs) ≡ length rs * 25
length-body [] h = refl
length-body (r ∷ rs) h =
    omega (arith, length-append (entry r) (body rs), length-entry r h.0, length-body rs h.1)

pub slices_text-body :
    (mem : List ℕ) (rs : List Region)
    → All Fits rs
    → length rs * 25 + 1 ≤ length mem
    → slices_text mem rs ≡ ok (body rs)
unfolding slices_text
slices_text-body mem rs h room =
    let (tail, e) = fill_data_lem [] mem rs h room in
    rw (e, slices_text)
      (ap ok (take-append_self (length rs * 25) (body rs) tail (sym (length-body rs h))))

entry-IsGraph : (r : Region) → All IsGraph (entry r)
unfolding entry
entry-IsGraph (addr, rkey) = field-IsGraph 10 16 addr _ (print-IsGraph 16 8 rkey)

pub body-IsGraph : (rs : List Region) → All IsGraph (body rs)
body-IsGraph [] = tt
body-IsGraph (r ∷ rs) = All-append IsGraph (entry r) (body rs) (entry-IsGraph r) (body-IsGraph rs)

scan_entry-entry : (r u : Region) → Fits r → scan_entry (entry r) u ≡ r
unfolding scan_entry entry
scan_entry-entry (addr, rkey) (a, k) h =
    rw
      (
        scan-print 10 15 0 addr (58 ∷ print 16 8 rkey) (ten refl) h.0 (inl refl),
        colon-cons (print 16 8 rkey),
        read,
        scan_entry,
      )
      (ap (λ k'. (addr, k')) (let e : u32 rkey ≡ rkey = omega (arith, h.1) in e))
  where
    read : scan 16 8 (print 16 8 rkey) ≡ some (rkey, [])
    read =
        ap (scan 16 8) (sym (append-nil (print 16 8 rkey)))
        ∙ scan-print 16 7 0 rkey [] (sixteen refl) h.1 (inl refl)

pub string_at-entries :
    (r : Region) (rs : List Region) (rest : List ℕ)
    → string_at (entry r ++ (body rs ++ (0 ∷ rest))) ≡ some (entry r ++ body rs)
string_at-entries r rs rest =
    ap string_at (sym (append_assoc (entry r) (body rs) (0 ∷ rest)))
    ∙ string_at-append (entry r ++ body rs) rest (body-IsGraph (r ∷ rs))

-- `tmp` with the bytes behind it has room for one entry and its NUL.
scan_tmp-entry :
    (r : Region) (rs : List Region) (rest tmp : List ℕ)
    → Fits r
    → 26 ≤ length tmp
    → scan_tmp (entry r ++ (body rs ++ (0 ∷ rest))) tmp ≡ ok (entry r ++ (0 ∷ drop 26 tmp))
unfolding scan_tmp
scan_tmp-entry r rs rest tmp h room =
    rw
      (
        string_at-entries r rs rest,
        word-graph (entry r ++ body rs) (body-IsGraph (r ∷ rs)),
        take-append_self 25 (entry r) (body rs) (sym (length-entry r h)),
        length-entry r h,
        le_leb 26 (length tmp) room,
        scan_tmp,
      )
      refl

after_tmp : List ℕ → Region → Outcome (List ℕ × Region)
after_tmp tmp u = elim (string_at tmp) [ none ↦ fault | some s ↦ ok (tmp, scan_entry s u) ]

after_tmp-entry :
    (r u : Region) (rest : List ℕ)
    → Fits r
    → after_tmp (entry r ++ (0 ∷ rest)) u ≡ ok (entry r ++ (0 ∷ rest), r)
unfolding after_tmp
after_tmp-entry r u rest h =
    rw (string_at-append (entry r) rest (entry-IsGraph r), scan_entry-entry r u h, after_tmp) refl

read_entry-entry :
    (r u : Region) (rs : List Region) (rest tmp : List ℕ)
    → Fits r
    → 26 ≤ length tmp
    → read_entry tmp u (entry r ++ (body rs ++ (0 ∷ rest))) ≡ ok (entry r ++ (0 ∷ drop 26 tmp), r)
unfolding read_entry after_tmp
read_entry-entry r u rs rest tmp h room =
    ap (λ o. o >>= λ t. after_tmp t u) (scan_tmp-entry r rs rest tmp h room)
    ∙ after_tmp-entry r u (drop 26 tmp) h

pub read_entries-body :
    (rs unset : List Region) (tmp rest : List ℕ)
    → All Fits rs
    → length unset ≡ length rs
    → 26 ≤ length tmp
    → read_entries tmp unset (body rs ++ (0 ∷ rest)) ≡ ok rs
unfolding read_entries
read_entries-body [] [] tmp rest h e room = refl
read_entries-body [] (u ∷ us) tmp rest h e room = absurd (omega (arith, e))
read_entries-body (r ∷ rs) [] tmp rest h e room = absurd (omega (arith, e))
read_entries-body (r ∷ rs) (u ∷ us) tmp rest h e room =
    rw
      (
        append_assoc (entry r) (body rs) (0 ∷ rest),
        read_entry-entry r u rs rest tmp h.0 room,
        drop-append_self 25 (entry r) (body rs ++ (0 ∷ rest)) (sym (length-entry r h.0)),
        read_entries-body rs us (entry r ++ (0 ∷ drop 26 tmp)) rest h.1 (omega (arith, e)) again,
        read_entries,
      )
      refl
  where
    again : 26 ≤ length (entry r ++ (0 ∷ drop 26 tmp))
    again = omega (arith, length-append (entry r) (0 ∷ drop 26 tmp), length-entry r h.0)

-- The regions that one side announces are those that the other stores, in their order: with one
-- byte behind each of the two arrays that may be written, addresses of at most 16 digits and 32-bit
-- keys, what `start_rw` sends is 25 bytes for each region, and `start_remote` counts one receive
-- buffer and reads from these bytes, with a NUL behind them, the same addresses and keys.
pub start_remote-slices_text :
    (rs : List Region) (mem tmp rest : List ℕ) (malloc : ℕ → List Region) (recv_index : ℕ)
    → All Fits rs
    → length mem ≡ length rs * 25 + 1
    → length tmp ≡ 26
    → ((n : ℕ) → length (malloc n) ≡ n)
    → (sent : List ℕ) × (slices_text mem rs ≡ ok sent)
      × (length sent ≡ length rs * 25)
      × (start_remote malloc tmp (sent ++ (0 ∷ rest)) recv_index (length sent)
          ≡ ok (recv_index + 1, rs))
unfolding start_remote
start_remote-slices_text rs mem tmp rest malloc recv_index h m t sized = (
  body rs,
  slices_text-body mem rs h (omega (arith, m)),
  length-body rs h,
  ap (λ o. o >>= λ l. ok (recv_index + 1, l))
      (read_entries-body rs (malloc (length (body rs) / 25)) tmp rest h
        (omega (arith, sized (length (body rs) / 25), length-body rs h)) (omega (arith, t))),
)
