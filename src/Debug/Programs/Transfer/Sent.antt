-- ===== src/Debug/Programs/Transfer/Sent.antt =====
-- The client of debug/xx.cpp sends what it filled.
use mathlib.Core.List.{append_assoc, append-nil}
use workd.Prelude.{
  ℕ, zero, suc, ◌+◌, ◌*◌, ◌≤◌, ◌<◌, ◌≡◌, refl, sym, ap, ◌∙◌, some, Bool, true, false, List, [], ◌∷◌,
  ◌++◌, leb, length, length-append, length-take, length-drop, take, drop, take-append_self,
  drop-drop, take-append-drop, All, if◌then◌else◌, arith, lt→ltb, ge→ltb, drop_all,
}
use workd.Prelude.Int.{ℤ, pos, is_neg, is_zero}
use workd.Prelude.Outcome.{Outcome, ok, ◌>>=◌}
use workd.Debug.Verbs.{Mem, Wr, Wc, Poll, Queues, rdma_post_send}
use workd.Debug.Verbs.Laws.{idle, rdma_query_cq-sent}
use workd.Debug.Door.{Door}
use workd.Debug.Programs.Transfer.{Sending, task, put, send_rest, send_all}

-- Completions that come one at a time, each after a number of empty polls.
abbrev pub acks : List (ℕ × Wc) → List Poll → List Poll
acks [] ps = ps
acks ((n, c) ∷ later) ps = idle n (some (c ∷ []) ∷ acks later ps)

-- What messages carry, one behind the other.
abbrev pub join : List (List ℕ) → List ℕ
join [] = []
join (b ∷ bs) = b ++ join bs

join-append : (bs cs : List (List ℕ)) → join (bs ++ cs) ≡ join bs ++ join cs
join-append [] cs = refl
join-append (b ∷ bs) cs =
    ap (λ t. b ++ t) (join-append bs cs) ∙ sym (append_assoc b (join bs) (join cs))

fits : (a b : ℕ) → a ≤ b → leb a b ≡ true
fits a b h = ground arith

module _ (takes : List Wr → Wr → Bool) (m : Mem) (ts : List ℕ) (size capacity : ℕ)
    (takes_all : (q : List Wr) (r : Wr) → length q < capacity → takes q r ≡ true) where
  -- The message at `cur`.
  piece : ℕ → List ℕ
  piece cur = take size (drop cur ts)

  length-piece : (cur : ℕ) → cur + size ≤ length ts → length (piece cur) ≡ size
  unfolding piece
  length-piece cur h = omega (arith, length-take size (drop cur ts), length-drop cur ts, h)

  -- What one message changes.
  put_lem :
      (cur : ℕ) (s : Sending)
      → cur + size ≤ length ts
      → size ≤ length s.door.sbuf_mem
      → length s.door.sq < capacity
      → (s' : Sending) × (put takes m ts size cur s ≡ ok (pos 0, s'))
        × (s'.wire ≡ s.wire ++ piece cur ∷ [])
        × (s'.door.queues ≡ s.door.queues)
        × (length s'.door.sbuf_mem ≡ length s.door.sbuf_mem)
        × (length s'.door.sq ≡ length s.door.sq + 1)
  unfolding put rdma_post_send piece
  put_lem cur s h room free = (
    record {
      door = record s.door {
        sbuf_mem = piece cur ++ drop size s.door.sbuf_mem;
        sq = (rdma_post_send takes s.door.info s.door.sq (task m size)).1;
      };
      wire = s.wire ++ piece cur ∷ [];
    },
    rw
        (
          takes_all s.door.sq _ free,
          fits (cur + size) (length ts) h,
          fits size (length s.door.sbuf_mem) room,
          take-append_self size (piece cur) (drop size s.door.sbuf_mem) (sym (length-piece cur h)),
          put,
        )
        refl,
    refl,
    refl,
    omega (
      arith,
      length-append (piece cur) (drop size s.door.sbuf_mem),
      length-piece cur h,
      length-drop size s.door.sbuf_mem,
    ),
    rw (takes_all s.door.sq _ free) (length-append s.door.sq _),
  )

  after_query : ℕ → ℕ → Sending → ℤ × List Wc × Queues → Outcome (ℤ × Sending)
  after_query fuel cur s q =
      let s' : Sending = record s { door = record s.door { queues = q.2 } } in
      elim (is_neg q.0) [
        | true ↦ ok (pos 1, s')
        | false ↦
            put takes m ts size cur s' >>= λ x. send_rest takes m ts size fuel (cur + size) x.1
      ]

  one_round :
      (fuel cur : ℕ) (s s' : Sending) (n : ℕ) (c : Wc) (ps : List Poll)
      → cur < length ts
      → c.success ≡ true
      → s.door.queues.send_cq ≡ idle n (some (c ∷ []) ∷ ps)
      → put takes m ts size cur
          (record s { door = record s.door { queues = record s.door.queues { send_cq = ps } } })
        ≡ ok (pos 0, s')
      → send_rest takes m ts size (suc fuel) cur s ≡ send_rest takes m ts size fuel (cur + size) s'
  unfolding send_rest after_query
  one_round fuel cur s s' n c ps h good came taken =
      rw (lt→ltb cur (length ts) h, send_rest)
        (ap (λ o. o >>= after_query fuel cur s)
            (rdma_query_cq-sent n c [] s.door.queues ps (good, tt) came)
          ∙ ap (λ o. o >>= λ x. send_rest takes m ts size fuel (cur + size) x.1) taken)

  rejoin :
      (cur : ℕ) (w : List (List ℕ))
      → join (w ++ piece cur ∷ []) ++ drop (cur + size) ts ≡ join w ++ drop cur ts
  unfolding piece
  rejoin cur w =
      ap (λ t. t ++ drop (cur + size) ts)
        (join-append w (piece cur ∷ []) ∙ ap (λ t. join w ++ t) (append-nil (piece cur)))
      ∙ append_assoc (join w) (piece cur) (drop (cur + size) ts)
      ∙ ap (λ t. join w ++ (piece cur ++ t)) (sym (drop-drop size cur ts))
      ∙ ap (λ t. join w ++ t) (take-append-drop size (drop cur ts))

  send_rest_lem :
      (later : List (ℕ × Wc)) (fuel cur : ℕ) (s : Sending) (ps : List Poll)
      → 0 < size
      → All (λ a. a.1.success ≡ true) later
      → s.door.queues.send_cq ≡ acks later ps
      → cur + length later * size ≡ length ts
      → size ≤ length s.door.sbuf_mem
      → length s.door.sq + length later ≤ capacity
      → length later < fuel
      → (s' : Sending) × (send_rest takes m ts size fuel cur s ≡ ok (pos 0, s'))
        × (join s'.wire ≡ join s.wire ++ drop cur ts)
        × (length s'.wire ≡ length s.wire + length later)
  unfolding send_rest
  send_rest_lem later zero cur s ps pos_size good came e room free h = absurd (omega (arith, h))
  send_rest_lem [] (suc fuel) cur s ps pos_size good came e room free h = (
    s,
    rw (ge→ltb cur (length ts) (omega (arith, e)), send_rest) refl,
    rw (drop_all cur ts (omega (arith, e)), append-nil) refl,
    omega arith,
  )
  send_rest_lem ((n, c) ∷ later) (suc fuel) cur s ps pos_size good came e room free h =
      let (s2, taken, w, q, b, n2) =
        put_lem cur
          (record s {
            door = record s.door { queues = record s.door.queues { send_cq = acks later ps } };
          })
          (omega (arith, e)) room (omega (arith, free)) in
      let (s', f, j, l) =
        send_rest_lem later fuel (cur + size) s2 ps pos_size good.1 (ap (λ x. x.send_cq) q)
          (omega (arith, e)) (omega (arith, b, room)) (omega (arith, n2, free))
          (omega (arith, h)) in
      (
        s',
        one_round fuel cur s s2 n c (acks later ps) (omega (arith, e, pos_size)) good.0 came taken
            ∙ f,
        j ∙ ap (λ t. join t ++ drop (cur + size) ts) w ∙ rejoin cur s.wire,
        omega (arith, l, ap length w, length-append s.wire (piece cur ∷ [])),
      )

  -- The client sends all that it filled: where the queue takes as many requests
  -- as it has been given and one for each message more, each message of
  -- `size` bytes, at least one, fits the send buffer, the data has one message's bytes for the
  -- first send and for each completion that comes, all of them successful, after any number of
  -- empty polls, and there are more rounds than completions, the loop ends; what its requests
  -- carry, one message behind the other, is the data, in as many messages.
  pub send_all-join :
      (acked : List (ℕ × Wc)) (fuel : ℕ) (d : Door) (ps : List Poll)
      → 0 < size
      → All (λ a. a.1.success ≡ true) acked
      → d.queues.send_cq ≡ acks acked ps
      → length ts ≡ size + length acked * size
      → size ≤ length d.sbuf_mem
      → length d.sq + length acked < capacity
      → length acked < fuel
      → (s : Sending) × (send_all takes m ts size fuel (record { door = d; wire = [] })
          ≡ ok (pos 0, s))
        × (join s.wire ≡ ts)
        × (length s.wire ≡ length acked + 1)
  unfolding send_all
  send_all-join acked fuel d ps pos_size good came e room free h =
      let (s1, taken, w, q, b, n1) =
        put_lem 0 (record { door = d; wire = [] }) (omega (arith, e)) room (omega (arith, free)) in
      let (s', f, j, l) =
        send_rest_lem acked fuel size s1 ps pos_size good (ap (λ x. x.send_cq) q ∙ came)
          (omega (arith, e)) (omega (arith, b, room)) (omega (arith, n1, free)) h in
      (
        s',
        ap
              (λ o. o >>= λ x.
                if is_zero x.0 then send_rest takes m ts size fuel size x.1 else ok (pos 1, x.1))
              taken
            ∙ f,
        j
            ∙ ap (λ t. join t ++ drop size ts) w
            ∙ ap (λ k. join (piece 0 ∷ []) ++ drop k ts) (omega arith)
            ∙ rejoin 0 [],
        omega (arith, l, ap length w),
      )
