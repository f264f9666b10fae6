-- ===== src/Debug/HugePages/Laws.antt =====
-- What malloc_huge_pages gives out, free_huge_pages takes back.
use workd.Prelude.{
  ℕ, ◌+◌, ◌-◌, ◌*◌, ◌%◌, ◌^◌, ◌≤◌, ◌≡◌, refl, ◌⊎◌, inl, inr, Option, none, some, Option-cases, true,
  List, ◌∷◌, ◌==◌, arith,
}
use workd.Prelude.Outcome.{ok}
use workd.Debug.HugePages.{
  huge_page_size, real_size, Area, mapped_area, heap_area, malloc_huge_pages, gives_back, release,
  free_huge_pages,
}

-- An area as the function makes it: of whole pages, with room for the first page and the size.
record Made (a : Area) (size : ℕ) : Type 0 where
  room : huge_page_size + size ≤ a.len
  whole : a.header % huge_page_size ≡ 0
  back : gives_back a ≡ true

real_size_lem :
    (size : ℕ)
    → size + 2 * huge_page_size ≤ 2 ^ 64
    → (huge_page_size + size ≤ real_size size) × (real_size size % huge_page_size ≡ 0)
unfolding real_size
real_size_lem size h = (omega arith, omega arith)

mapped_area-Made :
    (size ptr : ℕ)
    → size + 2 * huge_page_size ≤ 2 ^ 64
    → Made (mapped_area ptr (real_size size)) size
unfolding gives_back
mapped_area-Made size ptr h = record {
  room = (real_size_lem size h).0;
  whole = (real_size_lem size h).1;
  back = ground (arith, (real_size_lem size h).0);
}

heap_area-Made :
    (size ptr : ℕ) → size + 2 * huge_page_size ≤ 2 ^ 64 → Made (heap_area ptr (real_size size)) size
unfolding gives_back
heap_area-Made size ptr h = record {
  room = (real_size_lem size h).0;
  whole = omega arith;
  back = refl;
}

release-head :
    (a : Area) (areas : List Area) (size : ℕ)
    → Made a size
    → free_huge_pages (some (a.base + huge_page_size)) (a ∷ areas) ≡ ok areas
unfolding free_huge_pages release
release-head a areas size m = rw (at, m.back, first_page, release) refl
  where
    at : (a.base == a.base + huge_page_size - huge_page_size) ≡ true
    at = ground arith

    first_page : (a.header % huge_page_size == 0) ≡ true
    first_page = ground (arith, m.whole)

-- Memory is given back as it was got: for a size that leaves `size_t` room for two pages more,
-- `malloc_huge_pages` either fails, since both mmap and malloc do, and changes nothing; or it adds
-- one area, returns the address behind the area's first page with at least `size` bytes from there
-- on, and `free_huge_pages` of that address passes its assertion and leaves the areas that were
-- there before.
pub malloc-free :
    (mmap malloc : ℕ → Option ℕ) (size : ℕ) (areas : List Area)
    → size + 2 * huge_page_size ≤ 2 ^ 64
    → ((malloc_huge_pages mmap malloc size areas ≡ (none, areas))
        × (mmap (real_size size) ≡ none)
        × (malloc (real_size size) ≡ none))
      ⊎ ((a : Area) × (malloc_huge_pages mmap malloc size areas
            ≡ (some (a.base + huge_page_size), a ∷ areas))
          × (huge_page_size + size ≤ a.len)
          × (free_huge_pages (some (a.base + huge_page_size)) (a ∷ areas) ≡ ok areas))
unfolding malloc_huge_pages
malloc-free mmap malloc size areas h = elim (Option-cases (mmap (real_size size))) [
  | inr (ptr, e) ↦ inr (
    mapped_area ptr (real_size size),
    rw (e, malloc_huge_pages) refl,
    (real_size_lem size h).0,
    release-head _ areas size (mapped_area-Made size ptr h),
  )
  | inl e ↦ elim (Option-cases (malloc (real_size size))) [
    | inr (ptr, f) ↦ inr (
      heap_area ptr (real_size size),
      rw (e, f, malloc_huge_pages) refl,
      (real_size_lem size h).0,
      release-head _ areas size (heap_area-Made size ptr h),
    )
    | inl f ↦ inl (rw (e, f, malloc_huge_pages) refl, e, f)
  ]
]

-- Where mmap gives memory, it is what is used.
pub malloc-mapped :
    (mmap malloc : ℕ → Option ℕ) (size base : ℕ) (areas : List Area)
    → mmap (real_size size) ≡ some base
    → malloc_huge_pages mmap malloc size areas
      ≡ (some (base + huge_page_size), mapped_area base (real_size size) ∷ areas)
unfolding malloc_huge_pages
malloc-mapped mmap malloc size base areas e = rw (e, malloc_huge_pages) refl
