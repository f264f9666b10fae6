-- ===== src/Backend/Stream.antt =====
-- The abstract view of the backend's sending side: a stream of bytes.
use mathlib.Core.List.{append_assoc}
use workd.Prelude.{
  ℕ, ◌≡◌, refl, sym, ap, ◌∙◌, Bool, List, [], ◌∷◌, ◌++◌, length, take, take-append_self,
}
use workd.Socket.Send.{SendWr}
use workd.Socket.Send.Fill.{message}
use workd.Socket.Send.Deliver.{payload}
use workd.Backend.Run.{
  State, Event, taken, refused, handled, Step, accept, refuse, handle, Run, stop, next, StepSends,
  Sends,
}
use workd.Backend.Census.{Step-Delivered}

-- The stream after an event: a message that the queue pair takes stands whole at its end, of one
-- that it refuses after `n` bytes the first `n`, and nothing else changes it.
abbrev pub spec_step : List ℕ → Event → List ℕ
spec_step bytes (taken bl) = bytes ++ message bl
spec_step bytes (refused bl n) = bytes ++ take n (message bl)
spec_step bytes handled = bytes

abbrev pub spec_run : List ℕ → List Event → List ℕ
spec_run bytes [] = bytes
spec_run bytes (e ∷ es) = spec_run (spec_step bytes e) es

payload-append : (xs ys : List SendWr) → payload (xs ++ ys) ≡ payload xs ++ payload ys
payload-append [] ys = refl
payload-append (w ∷ ws) ys = rw (payload-append ws ys, append_assoc) refl

module _ (takes : List SendWr → Bool) (fuel : ℕ) where
  Step-spec :
      (e : Event) (s t : State) (st : Step takes fuel e s t)
      → StepSends takes fuel e s t st
      → payload t.wire ≡ spec_step (payload s.wire) e
  Step-spec _ s _ (accept bl r e k) v =
      payload-append s.wire r.posted
      ∙ ap (◌++◌ (payload s.wire)) (Step-Delivered takes fuel s.manager bl r v e).content_sent
  Step-spec _ s _ (refuse bl r front back e k split some_left) v =
      payload-append s.wire front
      ∙ ap (◌++◌ (payload s.wire)) (
          sym (
            ap (take (length (payload front))) (
              sym (Step-Delivered takes fuel s.manager bl r v e).content_sent
              ∙ ap payload split
              ∙ payload-append front back)
            ∙ take-append_self (length (payload front)) (payload front) (payload back) refl))
  Step-spec _ s _ (handle before after rest done todo h e b b' k f) v = refl

  -- The backend refines a stream: over any run, the bytes of all the requests that the queue pair
  -- has taken, in the order in which it took them, are those of the stream to which each message
  -- that it took was added whole and in order, of each message that it refused after some bytes
  -- just these from its front, and no other. How messages are cut into chunks, where these lie and
  -- when they complete makes no difference. The condition is that each message has at least one
  -- byte and, when it is sent, finds the chunks that it needs in the receive pool (Sends).
  pub Run-spec :
      (es : List Event) (s t : State) (run : Run takes fuel es s t)
      → Sends takes fuel es s t run
      → payload t.wire ≡ spec_run (payload s.wire) es
  Run-spec _ s _ stop h = refl
  Run-spec _ s u (next {e} {es} {t = t} st r) h =
      Run-spec es t u r h.1 ∙ ap (λ b. spec_run b es) (Step-spec e s t st h.0)
