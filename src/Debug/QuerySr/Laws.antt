-- ===== src/Debug/QuerySr/Laws.antt =====
-- What query_sr writes.
use mathlib.Core.List.{append_assoc}
use workd.Prelude.{
  ℕ, zero, suc, ◌+◌, ◌-◌, ◌*◌, ◌^◌, ◌≤◌, ◌<◌, ◌≡◌, sym, ap, ◌∙◌, inl, inr, true, Bool-cases, some,
  List, [], ◌∷◌, ◌++◌, ◌==◌, leb, length, length-append, length-replicate, take, take_all, drop,
  replicate, copy_to, copy_to-append, All, if◌then◌else◌, arith,
}
use workd.Prelude.Int.{ℤ, pos, negsuc}
use workd.Prelude.Outcome.{Outcome, ok, fault, ◌>>=◌}
use workd.Text.{print}
use workd.Text.Fields.{length-print_max}
use workd.Debug.Verbs.{Wc, Poll, Queues}
use workd.Debug.Verbs.Laws.{idle, rdma_query_cq-received}
use workd.Debug.QuerySr.{write_lengths, query_sr}

abbrev pub zeros : ℕ → List ℕ
zeros n = replicate n 0

-- The eight bytes of one length.
pub cell : ℕ → List ℕ
cell n = print 10 1 n ++ zeros (8 - length (print 10 1 n))

-- Those of all receives, and how many they are.
abbrev pub cells : List Wc → List ℕ
cells [] = []
cells (w ∷ ws) = if w.wr_id == 666 then cell w.byte_len ++ cells ws else cells ws

abbrev pub receives : List Wc → ℕ
receives [] = 0
receives (w ∷ ws) = if w.wr_id == 666 then suc (receives ws) else receives ws

drop-zeros : (k j : ℕ) → drop k (zeros j) ≡ zeros (j - k)
drop-zeros zero j = ap zeros (let e : j ≡ j - 0 = omega arith in e)
drop-zeros (suc k) zero = ap zeros (let e : 0 ≡ 0 - suc k = omega arith in e)
drop-zeros (suc k) (suc j) =
    drop-zeros k j ∙ ap zeros (let e : j - k ≡ suc j - suc k = omega arith in e)

zeros_add : (a b : ℕ) → zeros a ++ zeros b ≡ zeros (a + b)
zeros_add zero b = ap zeros (let e : b ≡ 0 + b = omega arith in e)
zeros_add (suc a) b =
    ap (λ t. 0 ∷ t) (zeros_add a b) ∙ ap zeros (let e : suc (a + b) ≡ suc a + b = omega arith in e)

length-cell : (n : ℕ) → n < 10 ^ 7 → length (cell n) ≡ 8
unfolding cell
length-cell n h = omega (
  arith,
  length-append (print 10 1 n) (zeros (8 - length (print 10 1 n))),
  length-replicate {A = ℕ} (8 - length (print 10 1 n)) 0,
  length-print_max 10 1 7 n (omega arith) h,
)

-- One sprintf over zeros.
write_cell :
    (pre : List ℕ) (n j : ℕ)
    → n < 10 ^ 7
    → 8 ≤ j
    → copy_to (pre ++ zeros j) (length pre) (print 10 1 n ++ (0 ∷ []))
      ≡ (pre ++ cell n) ++ zeros (j - 8)
unfolding cell
write_cell pre n j h room =
    copy_to-append pre (zeros j) (p ++ (0 ∷ []))
    ∙ ap (λ t. (pre ++ (p ++ (0 ∷ []))) ++ t) (drop-zeros (length (p ++ (0 ∷ []))) j)
    ∙ ap (λ t. t ++ zeros (j - length (p ++ (0 ∷ [])))) (sym (append_assoc pre p (0 ∷ [])))
    ∙ append_assoc (pre ++ p) (0 ∷ []) (zeros (j - length (p ++ (0 ∷ []))))
    ∙ ap (λ t. (pre ++ p) ++ t) (ap zeros all ∙ sym (zeros_add (8 - length p) (j - 8)))
    ∙ simp append_assoc
  where
    p : List ℕ
    p = print 10 1 n

    short : length (print 10 1 n) ≤ 7
    short = length-print_max 10 1 7 n (omega arith) h

    all : suc (j - length (p ++ (0 ∷ []))) ≡ 8 - length p + (j - 8)
    all = omega (arith, length-append p (0 ∷ []), short, room)

fits : (a b : ℕ) → a ≤ b → leb a b ≡ true
fits a b h = ground arith

-- A receive in front.
one_more :
    (w : Wc) (ws : List Wc) (pre : List ℕ) (j cnt : ℕ)
    → 8 * suc (receives ws) ≤ j
    → w.byte_len < 10 ^ 7
    → write_lengths
        ((pre ++ cell w.byte_len) ++ zeros (j - 8))
        (length (pre ++ cell w.byte_len))
        (cnt + 1)
        ws
      ≡ ok (
        cnt + 1 + receives ws,
        (pre ++ cell w.byte_len) ++ (cells ws ++ zeros (j - 8 - 8 * receives ws)),
      )
    → (if leb (length pre + length (print 10 1 w.byte_len ++ (0 ∷ []))) (length (pre ++ zeros j))
        then write_lengths
            (copy_to (pre ++ zeros j) (length pre) (print 10 1 w.byte_len ++ (0 ∷ [])))
            (length pre + 8)
            (cnt + 1)
            ws
        else fault)
      ≡ ok (
        cnt + suc (receives ws),
        pre ++ ((cell w.byte_len ++ cells ws) ++ zeros (j - 8 * suc (receives ws))),
      )
one_more w ws pre j cnt fit digits ih =
    rw
      (
        fits (length pre + length (print 10 1 w.byte_len ++ (0 ∷ []))) (length (pre ++ zeros j))
            within,
        write_cell pre w.byte_len j digits (omega (arith, fit)),
      )
      (ap (λ i. write_lengths ((pre ++ cell w.byte_len) ++ zeros (j - 8)) i (cnt + 1) ws) at
        ∙ ih
        ∙ ap
            (λ n. ok (n, (pre ++ cell w.byte_len) ++ (cells ws ++ zeros (j - 8 - 8 * receives ws))))
            counted
        ∙ ap (λ m. ok (cnt + suc (receives ws), (pre ++ cell w.byte_len) ++ (cells ws ++ zeros m)))
            left
        ∙ ap (λ t. ok (cnt + suc (receives ws), t)) (simp append_assoc))
  where
    short : length (print 10 1 w.byte_len) ≤ 7
    short = length-print_max 10 1 7 w.byte_len (omega arith) digits

    within : length pre + length (print 10 1 w.byte_len ++ (0 ∷ [])) ≤ length (pre ++ zeros j)
    within = omega (
      arith,
      short,
      fit,
      length-append pre (zeros j),
      length-append (print 10 1 w.byte_len) (0 ∷ []),
      length-replicate {A = ℕ} j 0,
    )

    counted : cnt + 1 + receives ws ≡ cnt + suc (receives ws)
    counted = omega arith

    left : j - 8 - 8 * receives ws ≡ j - 8 * suc (receives ws)
    left = omega (arith, fit)

    at : length pre + 8 ≡ length (pre ++ cell w.byte_len)
    at = omega (arith, length-append pre (cell w.byte_len), length-cell w.byte_len digits)

write_lengths_lem :
    (ws : List Wc) (pre : List ℕ) (j cnt : ℕ)
    → All (λ w. w.byte_len < 10 ^ 7) ws
    → 8 * receives ws ≤ j
    → write_lengths (pre ++ zeros j) (length pre) cnt ws
      ≡ ok (cnt + receives ws, pre ++ (cells ws ++ zeros (j - 8 * receives ws)))
unfolding write_lengths
write_lengths_lem [] pre j cnt small room =
    ap (λ n. ok (n, pre ++ zeros j)) (let e : cnt ≡ cnt + 0 = omega arith in e)
    ∙ ap (λ m. ok (cnt + 0, pre ++ zeros m)) (let e : j ≡ j - 8 * 0 = omega arith in e)
write_lengths_lem (w ∷ ws) pre j cnt small room = elim (Bool-cases (w.wr_id == 666)) [
  | inr e ↦ rw (e, write_lengths) (write_lengths_lem ws pre j cnt small.1 (rw e at room))
  | inl e ↦
      let room' : 8 * suc (receives ws) ≤ j = rw e at room in
      rw (e, write_lengths)
        (one_more w ws pre j cnt room' small.0 (
          write_lengths_lem ws (pre ++ cell w.byte_len) (j - 8) (cnt + 1) small.1
            (omega (arith, room'))))
]

-- `query_sr` reports every receive: if the completions that come, after any number of empty polls,
-- are all successful, with lengths of at most seven digits, and `qbuf` has eight bytes for each that
-- `post_recv` has posted, the result is their number, and `qbuf` has their lengths in order, each
-- as a decimal text in eight bytes filled up with 0, and 0 behind them.
pub query_sr_lem :
    (n : ℕ) (w : Wc) (ws : List Wc) (q : Queues) (ps : List Poll) (qbuf : List ℕ)
    → All (λ c. c.success ≡ true) (w ∷ ws)
    → All (λ c. c.byte_len < 10 ^ 7) (w ∷ ws)
    → q.recv_cq ≡ idle n (some (w ∷ ws) ∷ ps)
    → 8 * receives (w ∷ ws) ≤ length qbuf
    → query_sr q qbuf
      ≡ ok (
        receives (w ∷ ws),
        cells (w ∷ ws) ++ zeros (length qbuf - 8 * receives (w ∷ ws)),
        record q { recv_cq = ps },
      )
unfolding query_sr
query_sr_lem n w ws q ps qbuf good small came room =
    ap (λ o. o >>= written) (rdma_query_cq-received n w ws q ps good came)
    ∙ ap
        (λ t. write_lengths (zeros (length qbuf)) 0 0 t >>= λ x.
          ok (x.0, x.1, record q { recv_cq = ps }))
        (take_all (length (w ∷ ws)) (w ∷ ws) (omega arith))
    ∙ ap (λ o. o >>= λ x. ok (x.0, x.1, record q { recv_cq = ps }))
        (write_lengths_lem (w ∷ ws) [] (length qbuf) 0 small room)
    ∙ ap
        (λ k. ok (
          k,
          cells (w ∷ ws) ++ zeros (length qbuf - 8 * receives (w ∷ ws)),
          record q { recv_cq = ps },
        ))
        (zero_add (receives (w ∷ ws)))
  where
    zero_add : (k : ℕ) → 0 + k ≡ k
    zero_add k = omega arith

    written : ℤ × List Wc × Queues → Outcome (ℕ × List ℕ × Queues)
    written x =
        write_lengths (zeros (length qbuf)) 0 0 (take (elim x.0 [ pos k ↦ k | negsuc k ↦ 0 ]) x.1)
        >>= λ y. ok (y.0, y.1, x.2)
