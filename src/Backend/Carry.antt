-- ===== src/Backend/Carry.antt =====
-- A message from `send` at one end to `read` at the other.
use mathlib.Core.List.{append_assoc}
use workd.Prelude.{
  ℕ, ◌+◌, ◌≤◌, ◌<◌, ◌≡◌, refl, ap, ◌∙◌, Bool, true, List, [], ◌∷◌, ◌++◌, take, length, All, sym,
  arith, length-append,
}
use workd.Prelude.Outcome.{ok}
use workd.Memory.Chunk.Laws.{IsValid}
use workd.Memory.Manager.{Manager}
use workd.Completion.{Channel, get_cq_event, Wc, Poll, got, failed}
use workd.Socket.Send.{total, SendWr, Sent, send}
use workd.Socket.Send.Fill.{message, length-message}
use workd.Socket.Send.Deliver.{payload, CanSend}
use workd.Socket.Recv.{read}
use workd.Backend.Census.{Step-Delivered}
use workd.Socket.Recv.Bounds.{spins, drained}
use workd.Socket.Recv.Collect.{
  FreshWc, FreshPolls, arrived, amount, all_arrived, all_amount, read_collects,
}

-- What the reliable connection promises of a send request and the receive that it completes: the
-- receive succeeds, in a chunk as it was posted and large enough, and its length and its first
-- bytes are the request's.
pub record Carries (w : SendWr) (c : Wc) : Type 0 where
  pub success : c.success ≡ true
  pub posted : IsValid c.wr_id × (c.wr_id.offset ≡ 0)
  pub fits : c.byte_len ≤ c.wr_id.bytes
  pub size : c.byte_len ≡ length (take w.length w.wr_id.store)
  pub bytes : take c.byte_len c.wr_id.store ≡ take w.length w.wr_id.store

-- Each request completes one receive, in order.
abbrev pub Carried : List SendWr → List Wc → Type 0
Carried [] [] = Unit {0}
Carried (w ∷ ws) (c ∷ cs) = Carries w c × Carried ws cs
Carried _ _ = ⊥

-- The completions of some polls, none of which is empty-handed.
abbrev pub Busy : List Poll → Type 0
Busy [] = Unit {0}
Busy (failed ∷ ps) = Busy ps
Busy (got [] ∷ ps) = ⊥
Busy (got (w ∷ ws) ∷ ps) = Busy ps

abbrev pub completions : List Poll → List Wc
completions [] = []
completions (failed ∷ ps) = completions ps
completions (got ws ∷ ps) = ws ++ completions ps

Carried-fresh : (ws : List SendWr) (cs : List Wc) → Carried ws cs → All FreshWc cs
Carried-fresh [] [] h = tt
Carried-fresh (w ∷ ws) [] h = absurd h
Carried-fresh [] (c ∷ cs) h = absurd h
Carried-fresh (w ∷ ws) (c ∷ cs) h =
    ((h.0.success, h.0.posted.0, h.0.posted.1, h.0.fits), Carried-fresh ws cs h.1)

Carried-arrived : (ws : List SendWr) (cs : List Wc) → Carried ws cs → arrived cs ≡ payload ws
Carried-arrived [] [] h = refl
Carried-arrived (w ∷ ws) [] h = absurd h
Carried-arrived [] (c ∷ cs) h = absurd h
Carried-arrived (w ∷ ws) (c ∷ cs) h = rw (h.0.bytes, Carried-arrived ws cs h.1) refl

Carried-amount : (ws : List SendWr) (cs : List Wc) → Carried ws cs → amount cs ≡ length (payload ws)
Carried-amount [] [] h = refl
Carried-amount (w ∷ ws) [] h = absurd h
Carried-amount [] (c ∷ cs) h = absurd h
Carried-amount (w ∷ ws) (c ∷ cs) h = omega (
  arith,
  h.0.size,
  Carried-amount ws cs h.1,
  length-append (take w.length w.wr_id.store) (payload ws),
)

-- Polls that bring the completions `cs`, then more.
module _ where
  All-left : (xs ys : List Wc) → All FreshWc (xs ++ ys) → All FreshWc xs
  All-left [] ys h = tt
  All-left (x ∷ xs) ys h = (h.0, All-left xs ys h.1)

  All-right : (xs ys : List Wc) → All FreshWc (xs ++ ys) → All FreshWc ys
  All-right [] ys h = h
  All-right (x ∷ xs) ys h = All-right xs ys h.1

Busy-fresh : (ps : List Poll) → Busy ps → All FreshWc (completions ps) → FreshPolls ps
Busy-fresh [] b h = tt
Busy-fresh (failed ∷ ps) b h = Busy-fresh ps b h
Busy-fresh (got [] ∷ ps) b h = absurd b
Busy-fresh (got (w ∷ ws) ∷ ps) b h =
    ((h.0, All-left ws (completions ps) h.1), Busy-fresh ps b (All-right ws (completions ps) h.1))

arrived-append : (xs ys : List Wc) → arrived (xs ++ ys) ≡ arrived xs ++ arrived ys
arrived-append [] ys = refl
arrived-append (x ∷ xs) ys = rw (arrived-append xs ys, append_assoc) refl

amount-append : (xs ys : List Wc) → amount (xs ++ ys) ≡ amount xs + amount ys
amount-append [] ys = omega arith
amount-append (x ∷ xs) ys = omega (arith, amount-append xs ys)

all_arrived-completions : (ps : List Poll) → all_arrived ps ≡ arrived (completions ps)
all_arrived-completions [] = refl
all_arrived-completions (failed ∷ ps) = all_arrived-completions ps
all_arrived-completions (got ws ∷ ps) =
    ap (◌++◌ (arrived ws)) (all_arrived-completions ps) ∙ sym (arrived-append ws (completions ps))

all_amount-completions : (ps : List Poll) → all_amount ps ≡ amount (completions ps)
all_amount-completions [] = refl
all_amount-completions (failed ∷ ps) = all_amount-completions ps
all_amount-completions (got ws ∷ ps) =
    omega (arith, all_amount-completions ps, amount-append ws (completions ps))

-- A message that `send` has handed to the queue pair is what `read` at the other end gives: if the
-- message fits, the connection carries each request of the call into one receive, in order, `read`
-- waits for an event, has nothing buffered, finds these completions in any number of polls on both
-- sides of its re-arming, and asks for more bytes than the message has, then it returns exactly the
-- message.
pub send-read :
    (takes : List SendWr → Bool) (fuel : ℕ) (m : Manager) (bl : List (List ℕ)) (r : Sent) (n : ℕ)
    (es : List Bool) (before after rest : List Poll) (ch : Channel) (len : ℕ)
    → CanSend fuel m bl
    → send takes fuel m bl ≡ ok r
    → Busy before
    → Busy after
    → Carried r.posted (completions before ++ completions after)
    → total bl < len
    → read (spins n es) (drained before after rest) ch [] len
      ≡ ok (
        (get_cq_event true ch).1,
        record { buf = message bl; count = total bl; rx_buffers = []; rearms = 1 },
      )
send-read takes fuel m bl r n es before after rest ch len v e b b' c h =
    read_collects n es before after rest ch len
      (Busy-fresh before b (All-left (completions before) (completions after) fresh))
      (Busy-fresh after b' (All-right (completions before) (completions after) fresh))
      (omega (arith, amounts, h))
    ∙ rw (arrivals, amounts) refl
  where
    fresh : All FreshWc (completions before ++ completions after)
    fresh = Carried-fresh r.posted (completions before ++ completions after) c

    sent : payload r.posted ≡ message bl
    sent = (Step-Delivered takes fuel m bl r v e).content_sent

    arrivals : all_arrived before ++ all_arrived after ≡ message bl
    arrivals =
        rw (all_arrived-completions before, all_arrived-completions after)
          (sym (arrived-append (completions before) (completions after))
            ∙ Carried-arrived r.posted (completions before ++ completions after) c
            ∙ sent)

    amounts : all_amount before + all_amount after ≡ total bl
    amounts = omega (
      arith,
      all_amount-completions before,
      all_amount-completions after,
      amount-append (completions before) (completions after),
      Carried-amount r.posted (completions before ++ completions after) c,
      ap length sent,
      length-message bl,
    )
