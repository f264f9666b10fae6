-- ===== src/Backend/Run.antt =====
-- The interleavings of RDMAConnectedSocketImpl::send with RDMAWorker::handle_tx_event.
use workd.Prelude.{ℕ, ◌≡◌, ◌<◌, length, true, false, Bool, List, [], ◌∷◌, ◌++◌, map}
use workd.Prelude.Outcome.{ok}
use workd.Memory.Manager.{Manager}
use workd.Completion.{Poll, got}
use workd.Completion.TxEvent.{Handled, Busy, completed, handle_tx_event}
use workd.Socket.Send.{SendWr, Sent, send}
use workd.Socket.Send.Deliver.{payload, CanSend}

-- The manager, the requests that the queue pair works on, those of refused chains that it has
-- not taken, which nothing refers to any more, and all that it has ever taken.
pub record State : Type 0 where
  pub manager : Manager
  pub flight : List SendWr
  pub lost : List SendWr
  pub wire : List SendWr

-- A message that is taken, one that is refused after so many of its bytes, or an event.
pub data Event : Type 0 where
  taken : List (List ℕ) → Event
  refused : List (List ℕ) → ℕ → Event
  handled : Event

-- `takes` is whether the queue pair takes a whole chain, `fuel` that of `send`. ibv_post_send posts
-- a chain up to the first request that fails: of a refused one some requests at the front, none
-- perhaps, are taken all the same. A chain of requests completes in the order in which it was
-- posted.
module _ (takes : List SendWr → Bool) (fuel : ℕ) where
  pub data Step : Event → State → State → Type 0 where
    accept :
        {s : State} (bl : List (List ℕ)) (r : Sent)
        → send takes fuel s.manager bl ≡ ok r
        → takes r.posted ≡ true
        → Step (taken bl) s (record s {
          manager = r.manager;
          flight = s.flight ++ r.posted;
          wire = s.wire ++ r.posted;
        })
    refuse :
        {s : State} (bl : List (List ℕ)) (r : Sent) (front back : List SendWr)
        → send takes fuel s.manager bl ≡ ok r
        → takes r.posted ≡ false
        → r.posted ≡ front ++ back
        → 0 < length back
        → Step (refused bl (length (payload front))) s (record s {
          manager = r.manager;
          flight = s.flight ++ front;
          lost = s.lost ++ back;
          wire = s.wire ++ front;
        })
    handle :
        {s : State} (before after rest : List Poll) (done todo : List SendWr) (h : Handled)
        → s.flight ≡ done ++ todo
        → Busy before
        → Busy after
        → map (λ w. w.wr_id) done ≡ completed before ++ completed after
        → handle_tx_event true (before ++ (got [] ∷ (after ++ (got [] ∷ rest)))) s.manager ≡ ok h
        → Step handled s (record s { manager = h.manager; flight = todo })

  pub data Run : List Event → State → State → Type 0 where
    stop : {s : State} → Run [] s s
    next :
        {e : Event} {es : List Event} {s t u : State} → Step e s t → Run es t u → Run (e ∷ es) s u

  -- Every message of the run has at least one byte and finds the chunks it needs when it is sent.
  abbrev pub StepSends : (e : Event) (s t : State) → Step e s t → Type 0
  StepSends _ s _ (accept bl r e k) = CanSend fuel s.manager bl
  StepSends _ s _ (refuse bl r front back e k split some_left) = CanSend fuel s.manager bl
  StepSends _ s _ (handle before after rest done todo h e b b' k f) = Unit {0}

  abbrev pub Sends : (es : List Event) (s t : State) → Run es s t → Type 0
  Sends _ s _ stop = Unit {0}
  Sends _ s u (next {e} {es} {t = t} st r) = StepSends e s t st × Sends es t u r
