-- ===== src/Debug/Buffers/Registering.antt =====
-- What reg_mem registers.
use workd.Prelude.{ℕ, zero, suc, ◌+◌, ◌*◌, ◌≡◌, refl, ap, ◌∙◌, some, true, List, [], ◌∷◌, length}
use workd.Prelude.Outcome.{ok, ◌>>=◌}
use workd.Debug.Verbs.{Registration, mr_recorded, Mem, rdma_reg_mr}
use workd.Debug.HugePages.{huge_page_size, real_size, mapped_area}
use workd.Debug.HugePages.Laws.{malloc-mapped}
use workd.Debug.Buffers.{
  Buffers, Supply, register_recv, hold_send, place_send, register_send, hold_recv, place_recv,
  reg_mem,
}

abbrev pub gap_at : (ℕ → ℕ → ℕ × ℕ) → ℕ → Mem
gap_at key ptr = record {
  buf = ptr;
  size = 32768;
  lkey = (key ptr 32768).0;
  rkey = (key ptr 32768).1;
}

-- The receive buffers from the `i`th on.
pub recv_regions : (ℕ → ℕ → ℕ × ℕ) → ℕ → ℕ → ℕ → List Mem
recv_regions key ptr zero i = []
recv_regions key ptr (suc n) i = gap_at key (ptr + 32768 * i) ∷ recv_regions key ptr n (i + 1)

length-recv_regions : (key : ℕ → ℕ → ℕ × ℕ) (ptr n i : ℕ) → length (recv_regions key ptr n i) ≡ n
unfolding recv_regions
length-recv_regions key ptr zero i = refl
length-recv_regions key ptr (suc n) i = ap suc (length-recv_regions key ptr n (i + 1))

reg_mr_lem :
    (key : ℕ → ℕ → ℕ × ℕ) (reg : ℕ → ℕ → Registration) (p : ℕ)
    → reg p 32768 ≡ mr_recorded (key p 32768)
    → rdma_reg_mr reg p 32768 ≡ ok (some (gap_at key p))
unfolding rdma_reg_mr
reg_mr_lem key reg p e = rw (e, rdma_reg_mr) refl

register_recv_lem :
    (key : ℕ → ℕ → ℕ × ℕ) (reg : ℕ → ℕ → Registration) (ptr n i : ℕ)
    → ((a l : ℕ) → reg a l ≡ mr_recorded (key a l))
    → register_recv reg ptr 32768 n i ≡ ok (recv_regions key ptr n i, true)
unfolding register_recv recv_regions
register_recv_lem key reg ptr zero i h = refl
register_recv_lem key reg ptr (suc n) i h =
    rw
      (
        reg_mr_lem key reg (ptr + 32768 * i) (h (ptr + 32768 * i) 32768),
        register_recv_lem key reg ptr n (i + 1) h,
        register_recv,
      )
      refl

-- The 1024 receive buffers.
pub own_buffers : (ℕ → ℕ → ℕ × ℕ) → ℕ → List Mem
own_buffers key rbase = recv_regions key (rbase + huge_page_size) 1024 0

pub length-own_buffers : (key : ℕ → ℕ → ℕ × ℕ) (rbase : ℕ) → length (own_buffers key rbase) ≡ 1024
unfolding own_buffers
length-own_buffers key rbase = length-recv_regions key (rbase + huge_page_size) 1024 0

-- Behind `reg_mem`: its memory for receiving lies at `rbase`, that for sending at `sbase`.
abbrev pub registered : Buffers → (ℕ → ℕ → ℕ × ℕ) → ℕ → ℕ → Buffers
registered b key rbase sbase = record b {
  recv_index = 0;
  recv_mem = some (own_buffers key rbase);
  rbuf = some (rbase + huge_page_size);
  sbuf = some (sbase + huge_page_size);
  send_mem = some (gap_at key (sbase + huge_page_size));
  areas =
      mapped_area sbase (real_size 32768)
      ∷ (mapped_area rbase (real_size (32768 * 1024)) ∷ b.areas);
}

module _ (y : Supply) (key : ℕ → ℕ → ℕ × ℕ) (rbase sbase : ℕ) (b : Buffers)
    (registers : (a l : ℕ) → y.reg a l ≡ mr_recorded (key a l)) where
  -- The members as `init` sets them.
  abbrev sized : Buffers
  sized = record b { recv_nums = 1024; gap = 32768 }

  abbrev with_recv : Buffers
  with_recv = record sized {
    recv_index = 0;
    recv_mem = some (own_buffers key rbase);
    rbuf = some (rbase + huge_page_size);
    areas = mapped_area rbase (real_size (32768 * 1024)) ∷ b.areas;
  }

  register_send_lem :
      y.mmap (real_size 32768) ≡ some sbase
      → register_send y with_recv ≡ ok (registered sized key rbase sbase)
  unfolding register_send place_send hold_send
  register_send_lem e =
      ap (λ p. place_send y with_recv p.0 p.1)
        (malloc-mapped y.mmap y.malloc 32768 sbase with_recv.areas e)
      ∙ ap
          (λ r.
            r
            >>= hold_send with_recv (sbase + huge_page_size)
                (mapped_area sbase (real_size 32768) ∷ with_recv.areas))
          (reg_mr_lem key y.reg (sbase + huge_page_size) (registers (sbase + huge_page_size) 32768))

  -- With memory, for the records too, and if every region registers, `reg_mem` holds all 1024 receive buffers and the
  -- send buffer.
  pub reg_mem_lem :
      y.has_array ≡ true
      → y.mmap (real_size (32768 * 1024)) ≡ some rbase
      → y.mmap (real_size 32768) ≡ some sbase
      → reg_mem y sized 32768 ≡ ok (registered sized key rbase sbase)
  unfolding reg_mem place_recv own_buffers hold_recv
  reg_mem_lem array e f =
      rw (array, reg_mem)
        (ap (λ p. place_recv y sized p.0 p.1)
            (malloc-mapped y.mmap y.malloc (32768 * 1024) rbase b.areas e)
          ∙ ap
              (λ r. r >>= λ p.
                hold_recv y (record with_recv { recv_mem = some p.0 }) (rbase + huge_page_size) p.1)
              (register_recv_lem key y.reg (rbase + huge_page_size) 1024 0 registers)
          ∙ register_send_lem f)
