-- ===== src/Debug/Programs/Client/Laws.antt =====
-- client of debug/xx.cpp as a whole.
use workd.Prelude.{
  ℕ, ◌+◌, ◌*◌, ◌≤◌, ◌<◌, ◌≡◌, ◌^◌, refl, sym, ap, ◌∙◌, lt→ltb, Option, some, true, List, [], length,
  All, arith,
}
use workd.Prelude.Int.{ℤ, pos}
use workd.Prelude.Outcome.{Outcome, ok, ◌>>=◌}
use workd.Debug.Verbs.{Wc, Poll}
use workd.Debug.HugePages.{huge_page_size}
use workd.Debug.Buffers.Registering.{gap_at}
use workd.Debug.Setup.{Machine, Prepared}
use workd.Debug.Devices.{Listed, get_device}
use workd.Debug.Door.{Door, World, connect}
use workd.Debug.Door.Linked.{CanOpen}
use workd.Debug.Door.Met.{Met}
use workd.Debug.Programs.Pattern.{fill, check}
use workd.Debug.Programs.Pattern.Laws.{test_data, length-test_data, fill-test_data, check-test_data}
use workd.Debug.Programs.Transfer.{Sending}
use workd.Debug.Programs.Transfer.Sent.{acks, join, send_all-join}
use workd.Debug.Programs.Client.{
  ethernet, client_params, send_messages, int_product, with_memory, client,
}

pub int_product_lem :
    (size iter : ℕ) → size * iter < 2 ^ 31 → int_product size iter ≡ ok (size * iter)
unfolding int_product
int_product_lem size iter h = rw (lt→ltb (size * iter) 2147483648 h, int_product) refl

split : (size iter l : ℕ) → iter ≡ l + 1 → size * iter ≡ size + l * size
split size iter l e = ap (λ k. size * k) e ∙ grind arith

-- The client of xx.cpp sends what its server accepts: where there is an Ethernet device, the
-- session opens towards its peer, `size` times `iter` fits `int` and is a multiple of four, the size
-- is at least 1 and at most 32768, malloc gives memory of all these bytes, the send queue takes all
-- that it has been given with the opening and one request more for each message (`capacity` of
-- CanOpen), and the queue brings one successful
-- completion for each message but the last, after any number of empty polls (and there are more
-- rounds than completions), `client` gets to its measurements; its requests carry `iter` messages,
-- and the loop of `server` accepts their bytes, one message behind the other.
pub client-check :
    {w v : World} {d e : Door} (can : CanOpen w d) (peer : CanOpen v e) (q : Prepared)
    (machine : Machine) (devices : Option (List Listed)) (name : List ℕ) (flag size iter fuel n : ℕ)
    (mem : List ℕ) (acked : List (ℕ × Wc)) (ps : List Poll) (c : Door)
    → get_device devices ethernet ≡ ok name
    → Met can peer q (connect w machine flag (client_params size iter name) c)
    → size * iter < 2 ^ 31
    → size * iter ≡ n * 4
    → length mem ≡ n * 4
    → 0 < size
    → size ≤ 32768
    → iter ≡ length acked + 1
    → All (λ a. a.1.success ≡ true) acked
    → can.send_polls ≡ acks acked ps
    → length d.sq + 1 + iter ≤ can.capacity
    → length acked < fuel
    → (s : Sending) × (client w machine devices flag size iter fuel (some mem) c ≡ ok (pos 0, s))
      × (length s.wire ≡ iter)
      × (check (size * iter) (join s.wire) ≡ ok true)
unfolding client send_messages with_memory
client-check {w} {d = e0} can peer q machine devices name flag size iter fuel n mem acked ps c dev
      met int whole room pos_size small count good came free h =
    let to_end : Door → List ℕ → Outcome (ℤ × Sending) =
      λ x. λ b. send_messages w size fuel x.buffers.send_mem (record { door = x; wire = [] }) b in
    let from_open : Door → Outcome (ℤ × Sending) =
      λ x. int_product size iter >>= λ k. fill k mem >>= to_end x in
    let d = met.open_to.after in
    let m = gap_at can.key (can.sbase + huge_page_size) in
    let (s, sent, carried, many) =
      send_all-join w.takes m (test_data n) size can.capacity can.takes_all acked fuel d ps pos_size
        good (ap (λ x. x.send_cq) met.open_to.waits ∙ came)
        (omega (arith, length-test_data n, sym whole, split size iter (length acked) count))
        (omega (arith, small, met.sends.1)) (omega (arith, met.open_to.sent_one, free, count)) h in
    (
      s,
      ap (λ o. o >>= λ x. connect w machine flag (client_params size iter x) c >>= from_open) dev
          ∙ ap (λ o. o >>= from_open) met.open_to.opens
          ∙ ap (λ o. o >>= λ k. fill k mem >>= to_end d) (int_product_lem size iter int)
          ∙ ap (λ k. fill k mem >>= to_end d) whole
          ∙ ap (λ o. o >>= to_end d) (fill-test_data n mem room)
          ∙ ap (λ o. send_messages w size fuel o (record { door = d; wire = [] }) (test_data n))
              met.sends.0
          ∙ sent,
      omega (arith, many, count),
      ap (λ k. check k (join s.wire)) whole ∙ ap (check (n * 4)) carried ∙ check-test_data n,
    )
