-- ===== src/Debug/HugePages.antt =====
-- debug/huge_page.c: malloc_huge_pages and free_huge_pages, over the areas that mmap and malloc
-- have given.
pub mod Laws
use workd.Prelude.{
  ℕ, ◌+◌, ◌-◌, ◌*◌, ◌/◌, ◌%◌, ◌^◌, Option, none, some, Bool, true, false, ◌&&◌, not, List, [], ◌∷◌,
  ◌==◌, if◌then◌else◌,
}
use workd.Prelude.Outcome.{Outcome, ok, fault, ◌>>=◌}

abbrev pub huge_page_size : ℕ
huge_page_size = 2097152

-- ALIGN_TO_PAGE_SIZE of the size and one page; `size_t` arithmetic.
pub real_size : ℕ → ℕ
real_size size =
    ((size + huge_page_size) % 2 ^ 64 + huge_page_size - 1)
    % 2 ^ 64
    / huge_page_size
    * huge_page_size

-- What stands at an address: whether mmap gave it or malloc, how long it is, and the number in its
-- first word.
pub record Area : Type 0 where
  pub base : ℕ
  pub mapped : Bool
  pub len : ℕ
  pub header : ℕ

-- With the first word written: it holds 0 for an area of malloc.
abbrev pub mapped_area : ℕ → ℕ → Area
mapped_area ptr size = record { base = ptr; mapped = true; len = size; header = size }

abbrev pub heap_area : ℕ → ℕ → Area
heap_area ptr size = record { base = ptr; mapped = false; len = size; header = 0 }

-- `mmap` and `malloc` answer a length by an address or fail.
unfoldable pub malloc_huge_pages :
    (ℕ → Option ℕ) → (ℕ → Option ℕ) → ℕ → List Area → Option ℕ × List Area
unfolding real_size
malloc_huge_pages mmap malloc size areas = elim (mmap (real_size size)) [
  | some ptr ↦ (some (ptr + huge_page_size), mapped_area ptr (real_size size) ∷ areas)
  | none ↦ elim (malloc (real_size size)) [
    | none ↦ (none, areas)
    | some ptr ↦ (some (ptr + huge_page_size), heap_area ptr (real_size size) ∷ areas)
  ]
]

-- Whether the code behind the assertion gives this area back whole: munmap of its own length, or
-- free of what malloc gave.
gives_back : Area → Bool
gives_back a = if a.header == 0 then not a.mapped else a.mapped && a.header == a.len

-- Where no area starts at the address there is nothing to give back.
pub release : ℕ → List Area → Outcome (List Area)
unfolding gives_back
release real_ptr [] = fault
release real_ptr (a ∷ areas) =
    let rest = release real_ptr areas >>= λ r. ok (a ∷ r) in
    if a.base == real_ptr
    then (if a.header % huge_page_size == 0 && gives_back a then ok areas else fault)
    else rest

unfoldable pub free_huge_pages : Option ℕ → List Area → Outcome (List Area)
unfolding release
free_huge_pages none areas = ok areas
free_huge_pages (some ptr) areas = release (ptr - huge_page_size) areas
