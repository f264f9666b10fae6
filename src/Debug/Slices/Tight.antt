-- ===== src/Debug/Slices/Tight.antt =====
-- Why the texts of the regions need a byte more than their arrays have.
use mathlib.Core.List.{append_assoc}
use workd.Prelude.{
  Bool, true, if◌then◌else◌, ℕ, ◌+◌, ◌*◌, ◌/◌, ◌<◌, ◌≡◌, sym, refl, ap, List, [], ◌∷◌, ◌++◌, arith,
  length, length-append, length-drop, length-take, false, take, drop, take-append_self, All, leb,
}
use workd.Prelude.Outcome.{ok, fault, ◌>>=◌}
use workd.Text.Numbers.{word-graph}
use workd.Debug.Slices.{
  Region, entry, fill_data, slices_text, scan_tmp, read_entry, read_entries, start_remote,
}
use workd.Debug.Slices.Laws.{Fits, body, length-entry, length-body, body-IsGraph, string_at-entries}

if_same {ℓ} : {A : Type ℓ} (b : Bool) (a : A) → (if b then a else a) ≡ a
if_same true a = refl
if_same false a = refl

-- The loop of sprintf needs one byte more than the entries have.
fill_data_tight :
    (mem : List ℕ) (i : ℕ) (rs : List Region)
    → All Fits rs
    → 0 < length rs
    → length mem ≡ i + length rs * 25
    → fill_data mem i rs ≡ fault
unfolding fill_data
fill_data_tight mem i [] h some_region e = absurd (omega arith)
fill_data_tight mem i (r ∷ []) h some_region e = rw (full, fill_data) refl
  where
    full : leb (i + length (entry r ++ (0 ∷ []))) (length mem) ≡ false
    full = ground (arith, e, length-append (entry r) (0 ∷ []), length-entry r h.0)
fill_data_tight mem i (r ∷ q ∷ rs) h some_region e =
    rw
      (
        fill_data_tight (take i mem ++ (s ++ drop (i + length s) mem)) (i + 25) (q ∷ rs) h.1
            (omega arith) same,
        fill_data,
      )
      (if_same (leb (i + length s) (length mem)) fault)
  where
    s : List ℕ
    s = entry r ++ (0 ∷ [])

    long : length s ≡ 26
    long = omega (arith, length-append (entry r) (0 ∷ []), length-entry r h.0)

    same : length (take i mem ++ (s ++ drop (i + length s) mem)) ≡ i + 25 + length (q ∷ rs) * 25
    same = omega (
      arith,
      e,
      long,
      length-append (take i mem) (s ++ drop (i + length s) mem),
      length-append s (drop (i + length s) mem),
      length-take i mem,
      length-drop (i + length s) mem,
    )

scan_tmp-tight :
    (r : Region) (rs : List Region) (rest tmp : List ℕ)
    → Fits r
    → length tmp ≡ 25
    → scan_tmp (entry r ++ (body rs ++ (0 ∷ rest))) tmp ≡ fault
unfolding scan_tmp
scan_tmp-tight r rs rest tmp h tight =
    rw
      (
        string_at-entries r rs rest,
        word-graph (entry r ++ body rs) (body-IsGraph (r ∷ rs)),
        take-append_self 25 (entry r) (body rs) (sym (length-entry r h)),
        length-entry r h,
        tight,
        scan_tmp,
      )
      refl

read_entries_tight :
    (r : Region) (rs unset : List Region) (rest tmp : List ℕ)
    → Fits r
    → length tmp ≡ 25
    → 0 < length unset
    → read_entries tmp unset (body (r ∷ rs) ++ (0 ∷ rest)) ≡ fault
unfolding read_entries read_entry
read_entries_tight r rs [] rest tmp h tight some_room = absurd (omega arith)
read_entries_tight r rs (u ∷ us) rest tmp h tight some_room =
    rw
      (
        append_assoc (entry r) (body rs) (0 ∷ rest),
        scan_tmp-tight r rs rest tmp h tight,
        read_entries,
        read_entry,
      )
      refl

-- By the rules of C, which leave no byte behind an array, both sides are undefined on every run
-- with a region that fits: the loop of `start_rw` writes the last NUL past the end of its array,
-- and `start_remote` that of the first entry past the end of `tmp`.
pub slices_text_tight :
    (r : Region) (rs : List Region) (mem tmp rest : List ℕ) (malloc : ℕ → List Region)
    (recv_index : ℕ)
    → Fits r
    → All Fits rs
    → length mem ≡ length (r ∷ rs) * 25
    → length tmp ≡ 25
    → ((n : ℕ) → length (malloc n) ≡ n)
    → (slices_text mem (r ∷ rs) ≡ fault)
      × (start_remote malloc tmp (body (r ∷ rs) ++ (0 ∷ rest)) recv_index (length (body (r ∷ rs)))
          ≡ fault)
unfolding slices_text start_remote
slices_text_tight r rs mem tmp rest malloc recv_index h hs m t sized = (
  rw (fill_data_tight mem 0 (r ∷ rs) (h, hs) (omega arith) (omega (arith, m)), slices_text) refl,
  ap (λ o. o >>= λ l. ok (recv_index + 1, l))
      (read_entries_tight r rs (malloc (length (body (r ∷ rs)) / 25)) rest tmp h t
        (omega (arith, sized (length (body (r ∷ rs)) / 25), length-body (r ∷ rs) (h, hs)))),
)
