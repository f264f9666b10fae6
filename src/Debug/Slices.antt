-- ===== src/Debug/Slices.antt =====
-- The exchange of remote regions in debug/rdma_session.cpp: the text "%016lu:%08x" of each region
-- that start_rw writes, and start_remote, which reads them. Both write one byte behind an array:
-- the bytes of the stack behind it that may be written are a parameter, 0 by the rules of C.
pub mod Laws
pub mod Tight
use workd.Prelude.{
  ℕ, ◌+◌, ◌*◌, ◌/◌, Option, none, some, Bool, true, false, List, [], ◌∷◌, ◌++◌, ◌==◌, leb, length,
  take, drop, u32, if◌then◌else◌,
}
use workd.Prelude.Outcome.{Outcome, ok, fault, ◌>>=◌}
use workd.Text.{print, scan, colon, string_at, word}

-- `mr->addr` and `mr->rkey`.
abbrev pub Region : Type 0
Region = ℕ × ℕ

pub entry : Region → List ℕ
entry (addr, rkey) = print 10 16 addr ++ (58 ∷ print 16 8 rkey)

-- The loop of sprintf from `data+i` on; `mem` is the array with the bytes behind it that may be
-- written.
pub fill_data : List ℕ → ℕ → List Region → Outcome (List ℕ)
fill_data mem i [] = ok mem
fill_data mem i (r ∷ rs) =
    let s = entry r ++ (0 ∷ []) in
    let rest = fill_data (take i mem ++ (s ++ drop (i + length s) mem)) (i + 25) rs in
    if leb (i + length s) (length mem) then rest else fault

-- The bytes that `start_rw` sends, for the regions that it has registered.
unfoldable pub slices_text : List ℕ → List Region → Outcome (List ℕ)
unfolding fill_data
slices_text mem rs = fill_data mem 0 rs >>= λ d. ok (take (length rs * 25) d)

-- sscanf(ptr+cur,"%25s",tmp), of the memory from there on; `tmp` with the bytes behind it as above.
pub scan_tmp : List ℕ → List ℕ → Outcome (List ℕ)
scan_tmp text tmp = elim (string_at text) [
  | none ↦ fault
  | some s ↦
      let w = take 25 (word s) in
      if length w == 0
      then ok tmp
      else if leb (length w + 1) (length tmp)
      then ok (w ++ (0 ∷ drop (length w + 1) tmp))
      else fault
]

-- sscanf(tmp,"%016lu:%08x",...): what is not read stays as malloc gave it.
pub scan_entry : List ℕ → Region → Region
scan_entry s (addr, rkey) = elim (scan 10 16 s) [
  | none ↦ (addr, rkey)
  | some (v, t) ↦ elim (colon t) [
    | none ↦ (v, rkey)
    | some u ↦ elim (scan 16 8 u) [ none ↦ (v, rkey) | some (k, _) ↦ (v, u32 k) ]
  ]
]

-- A round of the loop: `tmp` and the element after it.
pub read_entry : List ℕ → Region → List ℕ → Outcome (List ℕ × Region)
unfolding scan_tmp scan_entry
read_entry tmp u text = scan_tmp text tmp >>= λ tmp'. elim (string_at tmp') [
  | none ↦ fault
  | some s ↦ ok (tmp', scan_entry s u)
]

-- The loop; `unset` are the two arrays' elements as malloc gave them.
pub read_entries : List ℕ → List Region → List ℕ → Outcome (List Region)
unfolding read_entry
read_entries tmp [] text = ok []
read_entries tmp (u ∷ unset) text =
    read_entry tmp u text >>= λ p. read_entries p.0 unset (drop 25 text) >>= λ rs. ok (p.1 ∷ rs)

-- `malloc` gives the arrays' elements for a number of them; `ptr` is the memory at `rbuf`. The
-- result is `recv_index` and the arrays.
unfoldable pub start_remote :
    (ℕ → List Region) → List ℕ → List ℕ → ℕ → ℕ → Outcome (ℕ × List Region)
unfolding read_entries
start_remote malloc tmp ptr recv_index len =
    read_entries tmp (malloc (len / 25)) ptr >>= λ rs. ok (recv_index + 1, rs)
