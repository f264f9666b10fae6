-- ===== src/Debug/Buffers/Posting.antt =====
-- Which receives post_recv posts.
use mathlib.Core.List.{append_assoc, append-nil}
use workd.Prelude.{
  ℕ, zero, suc, ◌+◌, ◌%◌, ◌<◌, ◌≡◌, ◌==◌, refl, ap, ◌∙◌, Option, none, some, Bool, true, false,
  Bool-cases, ◌⊎◌, inl, inr, List, [], ◌∷◌, ◌++◌, map, length, arith, ltb, get_elem?, if◌then◌else◌,
}
use workd.Prelude.Int.{ℤ, pos, is_zero}
use workd.Prelude.Outcome.{Outcome, ok, ◌>>=◌}
use workd.Debug.Verbs.{Mem, Wr, other_op, rdma_post_recv}
use workd.Debug.Buffers.{Buffers, recv_task, post_from, post_all, post_recv}

-- The receive for a buffer.
abbrev pub recv_request : Mem → Wr
recv_request m = record {
  wr_id = 666;
  addr = m.buf;
  length = m.size % 4294967296;
  lkey = m.lkey;
  opcode = other_op;
  remote_addr = 0;
  rkey = 0;
}

-- The `k` buffers from the `i`th on, round and round.
abbrev pub turns : List Mem → ℕ → ℕ → List Mem
turns ms i zero = []
turns ms i (suc k) = elim (get_elem? ms (i % length ms)) [
  | none ↦ []
  | some m ↦ m ∷ turns ms (i + 1) k
]

-- How the posting of `n` receives from the `i`th on can end: all are posted, or the first `k`, up
-- to one that the queue does not take.
abbrev pub Posted : List Mem → ℕ → ℕ → ℕ → List Wr → Outcome (ℤ × ℕ × List Wr) → Type 0
Posted ms refused i n rq o =
    (o ≡ ok (pos 0, i + n, rq ++ map recv_request (turns ms i n)))
    ⊎ ((k : ℕ) × (k < n)
        × (o ≡ ok (pos (suc refused), i + k, rq ++ map recv_request (turns ms i k))))

get_elem?-some : (ms : List Mem) (i : ℕ) → i < length ms → (m : Mem) × (get_elem? ms i ≡ some m)
get_elem?-some [] i h = absurd (omega arith)
get_elem?-some (m ∷ ms) zero h = (m, refl)
get_elem?-some (m ∷ ms) (suc i) h = get_elem?-some ms i (omega arith)

turns-suc :
    (ms : List Mem) (i k : ℕ) (m : Mem)
    → get_elem? ms (i % length ms) ≡ some m
    → turns ms i (suc k) ≡ m ∷ turns ms (i + 1) k
turns-suc ms i k m e = rw (e, turns) refl

module _ (takes : List Wr → Wr → Bool) (refused : ℕ) (ms : List Mem)
    (some_buffer : 0 < length ms) where
  abbrev posting : ℕ → ℕ → List Wr → Outcome (ℤ × ℕ × List Wr)
  posting n i rq = post_from takes refused (length ms) ms n i rq

  posting-taken :
      (n i : ℕ) (rq : List Wr) (m : Mem)
      → get_elem? ms (i % length ms) ≡ some m
      → takes rq (recv_request m) ≡ true
      → posting (suc n) i rq ≡ posting n (i + 1) (rq ++ recv_request m ∷ [])
  unfolding post_from recv_task rdma_post_recv
  posting-taken n i rq m e t = rw (e, t, post_from) refl

  posting-refused :
      (n i : ℕ) (rq : List Wr) (m : Mem)
      → get_elem? ms (i % length ms) ≡ some m
      → takes rq (recv_request m) ≡ false
      → posting (suc n) i rq ≡ ok (pos (suc refused), i, rq)
  unfolding post_from recv_task rdma_post_recv
  posting-refused n i rq m e t = rw (e, t, post_from) refl

  -- One more in front.
  longer :
      (i k : ℕ) (rq : List Wr) (m : Mem) (r : ℤ)
      → get_elem? ms (i % length ms) ≡ some m
      → ◌≡◌ {A = Outcome (ℤ × ℕ × List Wr)}
          (ok (r, i + 1 + k, (rq ++ recv_request m ∷ []) ++ map recv_request (turns ms (i + 1) k)))
          (ok (r, i + suc k, rq ++ map recv_request (turns ms i (suc k))))
  longer i k rq m r e =
      let at : i + 1 + k ≡ i + suc k = omega arith in
      rw (turns-suc ms i k m e, at, append_assoc) refl

  post_from-Posted : (n i : ℕ) (rq : List Wr) → Posted ms refused i n rq (posting n i rq)
  unfolding post_from
  post_from-Posted zero i rq = let at : i + 0 ≡ i = omega arith in inl (rw (at, append-nil) refl)
  post_from-Posted (suc n) i rq =
      let (m, e) = get_elem?-some ms (i % length ms) (omega (arith, some_buffer)) in
      elim (Bool-cases (takes rq (recv_request m))) [
        | inr turned_away ↦ inr (
          0,
          omega arith,
          posting-refused n i rq m e turned_away
              ∙ (let at : i + 0 ≡ i = omega arith in rw (at, append-nil) refl),
        )
        | inl takes_it ↦ elim (post_from-Posted n (i + 1) (rq ++ recv_request m ∷ [])) [
          | inl all ↦ inl (posting-taken n i rq m e takes_it ∙ all ∙ longer i n rq m (pos 0) e)
          | inr (k, less, part) ↦ inr (
            suc k,
            omega (arith, less),
            posting-taken n i rq m e takes_it ∙ part ∙ longer i k rq m (pos (suc refused)) e,
          )
        ]
      ]

  -- A queue that takes every receive.
  post_from_all :
      (n i : ℕ) (rq : List Wr)
      → ((q : List Wr) (r : Wr) → takes q r ≡ true)
      → posting n i rq ≡ ok (pos 0, i + n, rq ++ map recv_request (turns ms i n))
  unfolding post_from
  post_from_all zero i rq h = let at : i + 0 ≡ i = omega arith in rw (at, append-nil) refl
  post_from_all (suc n) i rq h =
      let (m, e) = get_elem?-some ms (i % length ms) (omega (arith, some_buffer)) in
      posting-taken n i rq m e (h rq (recv_request m))
      ∙ post_from_all n (i + 1) (rq ++ recv_request m ∷ []) h
      ∙ longer i n rq m (pos 0) e

-- The number of rounds of the loop.
abbrev pub at_most : ℕ → ℕ
at_most nums = if ltb nums 16000 then nums else 16000

post_all-some :
    (takes : List Wr → Wr → Bool) (refused n : ℕ) (o : Option (List Mem)) (ms : List Mem) (nums : ℕ)
    (rq : List Wr)
    → 0 < length ms
    → n ≡ length ms
    → o ≡ some ms
    → post_all takes refused n o nums rq
      ≡ post_from takes refused (length ms) ms (at_most nums) 0 rq
unfolding post_all
post_all-some takes refused n o ms nums rq some_buffer sized there =
    rw (sized, not_zero, there, sized, post_all) refl
  where
    not_zero : (length ms == 0) ≡ false
    not_zero = ground (arith, some_buffer)

-- `post_recv` goes round the receive buffers: for a session with a buffer at least, all of them
-- registered, and a number of receives that is not negative, it posts that many, though no more
-- than 16000, one for each buffer in turn and again from the first behind the last, returns 0 and
-- adds their number to `posted_recv`; or the queue refuses a receive, those in front of it stay
-- posted, the result is the refusal's code and `posted_recv` stays as it was.
pub post_recv_lem :
    (takes : List Wr → Wr → Bool) (refused : ℕ) (b : Buffers) (ms : List Mem) (nums : ℕ)
    (rq : List Wr)
    → 0 < length ms
    → b.recv_nums ≡ length ms
    → b.recv_mem ≡ some ms
    → (post_recv takes refused b nums rq
        ≡ ok (
          pos 0,
          record b { posted_recv = b.posted_recv + at_most nums },
          rq ++ map recv_request (turns ms 0 (at_most nums)),
        ))
      ⊎ ((k : ℕ) × (k < at_most nums)
          × (post_recv takes refused b nums rq
              ≡ ok (pos (suc refused), b, rq ++ map recv_request (turns ms 0 k))))
unfolding post_recv
post_recv_lem takes refused b ms nums rq some_buffer sized there =
    elim (post_from-Posted takes refused ms some_buffer (at_most nums) 0 rq) [
      | inl e ↦ inl (ap after (started ∙ e) ∙ zero_add (at_most nums))
      | inr (k, less, e) ↦ inr (k, less, ap after (started ∙ e))
    ]
  where
    started :
        post_all takes refused b.recv_nums b.recv_mem nums rq
        ≡ post_from takes refused (length ms) ms (at_most nums) 0 rq
    started = post_all-some takes refused b.recv_nums b.recv_mem ms nums rq some_buffer sized there

    after : Outcome (ℤ × ℕ × List Wr) → Outcome (ℤ × Buffers × List Wr)
    after o = o >>= λ x.
        ok (x.0, if is_zero x.0 then record b { posted_recv = b.posted_recv + x.1 } else b, x.2)

    zero_add :
        (n : ℕ)
        → ◌≡◌ {A = Outcome (ℤ × Buffers × List Wr)}
            (ok (
              pos 0,
              record b { posted_recv = b.posted_recv + (0 + n) },
              rq ++ map recv_request (turns ms 0 n),
            ))
            (ok (
              pos 0,
              record b { posted_recv = b.posted_recv + n },
              rq ++ map recv_request (turns ms 0 n),
            ))
    zero_add n = let e : 0 + n ≡ n = omega arith in rw e refl

-- Where the queue takes every receive, none is refused.
pub post_recv_all :
    (takes : List Wr → Wr → Bool) (refused : ℕ) (b : Buffers) (ms : List Mem) (nums : ℕ)
    (rq : List Wr)
    → 0 < length ms
    → b.recv_nums ≡ length ms
    → b.recv_mem ≡ some ms
    → ((q : List Wr) (r : Wr) → takes q r ≡ true)
    → post_recv takes refused b nums rq
      ≡ ok (
        pos 0,
        record b { posted_recv = b.posted_recv + (0 + at_most nums) },
        rq ++ map recv_request (turns ms 0 (at_most nums)),
      )
unfolding post_recv
post_recv_all takes refused b ms nums rq some_buffer sized there h =
    ap
      (λ o. o >>= λ x.
        ok (x.0, if is_zero x.0 then record b { posted_recv = b.posted_recv + x.1 } else b, x.2))
      (post_all-some takes refused b.recv_nums b.recv_mem ms nums rq some_buffer sized there
        ∙ post_from_all takes refused ms some_buffer (at_most nums) 0 rq h)
