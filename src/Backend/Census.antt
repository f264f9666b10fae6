-- ===== src/Backend/Census.antt =====
-- No interleaving makes or destroys a chunk, and each message uses up a chunk of the receive pool.
use mathlib.Core.List.{
  append_assoc, map-append, reverse-cons, reverse-append, reverse_perm, perm_append_comm, Perm,
}
use mathlib.Core.List.Perm
use mathlib.Core.Path.{subst}
use workd.Prelude.{
  ℕ, suc, ◌+◌, ◌≤◌, ◌<◌, ◌≡◌, refl, ap, Bool, true, List, [], ◌∷◌, ◌++◌, map, reverse, arith,
  length, length-append, length-reverse, length-map,
}
use workd.Prelude.Outcome.{ok}
use workd.Memory.Chunk.{Chunk}
use workd.Memory.Manager.{Manager}
use workd.Completion.{Poll, got}
use workd.Completion.TxEvent.{
  Handled, Busy, handle_tx_event, completed, with_returned, handle_tx_event_lem,
}
use workd.Socket.Send.{SendWr, Sent, send, total}
use workd.Socket.Send.Fill.{identity, length-message}
use workd.Socket.Send.Deliver.{payload, place, CanSend, Delivered, send-Delivered}
use workd.Backend.Run.{
  State, Event, taken, refused, handled, Step, accept, refuse, handle, Run, stop, next, StepSends,
  Sends,
}

abbrev owners : List SendWr → List (ℕ × ℕ × ℕ)
owners ws = map (λ w. identity w.wr_id) ws

-- Every chunk of the system by its address, size and key, wherever it is.
abbrev pub census : State → List (ℕ × ℕ × ℕ)
census s =
    map identity s.manager.channel.free_chunks
    ++ (owners s.flight ++ (owners s.lost ++ map identity s.manager.send.free_chunks))

module _ {ℓ} {A : Type ℓ} where
  -- Chunks off the back of one list go to the back of another.
  Perm-take :
      (xs ps fs rs : List A) → Perm ((xs ++ reverse ps) ++ (fs ++ rs)) (xs ++ ((fs ++ ps) ++ rs))
  Perm-take xs ps fs rs =
      rw (append_assoc xs (reverse ps) (fs ++ rs), ← append_assoc (reverse ps) fs rs)
        (Perm.append_left xs (
          Perm.append_right rs
            (Perm.trans (Perm.append_right fs (reverse_perm ps)) (perm_append_comm ps fs))))

  Perm-lose :
      (xs ps fs ls ss : List A)
      → Perm ((xs ++ reverse ps) ++ (fs ++ (ls ++ ss))) (xs ++ (fs ++ ((ls ++ ps) ++ ss)))
  Perm-lose xs ps fs ls ss =
      rw (← append_assoc fs ls ss, ← append_assoc fs (ls ++ ps) ss, ← append_assoc fs ls ps)
        (Perm-take xs ps (fs ++ ls) ss)

  Perm-part :
      (xs ps qs fs ls ss : List A)
      → Perm
          ((xs ++ reverse (ps ++ qs)) ++ (fs ++ (ls ++ ss)))
          (xs ++ ((fs ++ ps) ++ ((ls ++ qs) ++ ss)))
  Perm-part xs ps qs fs ls ss =
      rw (reverse-append ps qs, ← append_assoc xs (reverse qs) (reverse ps))
        (Perm.trans (Perm-take (xs ++ reverse qs) ps fs (ls ++ ss))
          (Perm-lose xs qs (fs ++ ps) ls ss))

  Perm-return : (ds ts ls ss : List A) → Perm ((ds ++ ts) ++ (ls ++ ss)) (ts ++ (ls ++ (ss ++ ds)))
  Perm-return ds ts ls ss =
      rw (append_assoc ds ts (ls ++ ss), ← append_assoc ls ss ds, ← append_assoc ts (ls ++ ss) ds)
        (perm_append_comm ds (ts ++ (ls ++ ss)))

map-reverse : (f : Chunk → ℕ × ℕ × ℕ) (xs : List Chunk) → map f (reverse xs) ≡ reverse (map f xs)
map-reverse f [] = refl
map-reverse f (x ∷ xs) =
    rw
      (
        reverse-cons x xs,
        reverse-cons (f x) (map f xs),
        map-append f (reverse xs) (x ∷ []),
        map-reverse f xs,
      )
      refl

map-owners : (ws : List SendWr) → map identity (map (λ w. w.wr_id) ws) ≡ owners ws
map-owners [] = refl
map-owners (w ∷ ws) = ap (◌∷◌ (identity w.wr_id)) (map-owners ws)

-- What the handler does in a step.
pub Step-returned :
    (before after rest : List Poll) (m : Manager) (h : Handled) (cs : List Chunk)
    → Busy before
    → Busy after
    → cs ≡ completed before ++ completed after
    → handle_tx_event true (before ++ (got [] ∷ (after ++ (got [] ∷ rest)))) m ≡ ok h
    → h.manager ≡ with_returned m cs
Step-returned before after rest m h cs b b' k f = cc (handle_tx_event_lem before after rest m b b')

module _ (takes : List SendWr → Bool) (fuel : ℕ) where
  -- What `send` does in a step.
  pub Step-Delivered :
      (m : Manager) (bl : List (List ℕ)) (r : Sent)
      → CanSend fuel m bl
      → send takes fuel m bl ≡ ok r
      → Delivered m bl (takes r.posted) r
  Step-Delivered m bl r v e =
      let (s, e', d) = send-Delivered takes fuel m bl v in
      subst (λ t. Delivered m bl (takes t.posted) t) (cc) d

  -- The places of the channel's chunks before a call of `send`, from those after it.
  drawn-places :
      (m : Manager) (bl : List (List ℕ)) (b : Bool) (r : Sent)
      → Delivered m bl b r
      → map identity m.channel.free_chunks
        ≡ map identity r.manager.channel.free_chunks ++ reverse (owners r.posted)
  drawn-places m bl b r d =
      rw
        (
          d.drawn,
          map-append identity r.manager.channel.free_chunks (reverse d.chunks),
          map-reverse identity d.chunks,
          d.owners,
        )
        refl

  Step-census :
      (e : Event) (s t : State) (st : Step takes fuel e s t)
      → StepSends takes fuel e s t st
      → Perm (census s) (census t)
  Step-census _ s _ (accept bl r e k) v =
      let d = Step-Delivered s.manager bl r v e in
      rw
        (
          drawn-places s.manager bl (takes r.posted) r d,
          map-append (λ w. identity w.wr_id) s.flight r.posted,
          ap (λ c. map identity c.free_chunks) d.others.0,
        )
        (Perm-take (map identity r.manager.channel.free_chunks) (owners r.posted) (owners s.flight)
          (owners s.lost ++ map identity s.manager.send.free_chunks))
  Step-census _ s _ (refuse bl r front back e k split some_left) v =
      let d = Step-Delivered s.manager bl r v e in
      rw
        (
          drawn-places s.manager bl (takes r.posted) r d,
          split,
          map-append (λ w. identity w.wr_id) front back,
          map-append (λ w. identity w.wr_id) s.flight front,
          map-append (λ w. identity w.wr_id) s.lost back,
          ap (λ c. map identity c.free_chunks) d.others.0,
        )
        (Perm-part (map identity r.manager.channel.free_chunks) (owners front) (owners back)
          (owners s.flight) (owners s.lost) (map identity s.manager.send.free_chunks))
  Step-census _ s _ (handle before after rest done todo h e b b' k f) v =
      rw
        (
          e,
          Step-returned before after rest s.manager h (map (λ w. w.wr_id) done) b b' k f,
          map-append (λ w. identity w.wr_id) done todo,
          map-append identity s.manager.send.free_chunks (map (λ w. w.wr_id) done),
          map-owners done,
        )
        (Perm.append_left (map identity s.manager.channel.free_chunks) (
          Perm-return (owners done) (owners todo) (owners s.lost)
            (map identity s.manager.send.free_chunks)))

  -- In whatever order messages are sent, taken whole, refused from some request on, and completed,
  -- the chunks of the system are the same ones, each as often as before: in the receive pool, in
  -- the queue pair, in the send pool, or lost with the part of a chain that the queue pair refused.
  -- The condition is that each message has at least one byte and, when it is sent, finds the
  -- chunks that it needs in the receive pool (Sends).
  pub Run-Perm :
      (es : List Event) (s t : State) (run : Run takes fuel es s t)
      → Sends takes fuel es s t run
      → Perm (census s) (census t)
  Run-Perm _ s _ stop h = Perm.refl (census s)
  Run-Perm _ s u (next {e} {es} {t = t} st r) h =
      Perm.trans (Step-census e s t st h.0) (Run-Perm es t u r h.1)

  -- How many messages a run has handed to the queue pair, those that it refused included.
  abbrev pub sends : List Event → ℕ
  sends [] = 0
  sends (taken bl ∷ es) = suc (sends es)
  sends (refused bl n ∷ es) = suc (sends es)
  sends (handled ∷ es) = sends es

  used-lt :
      (m : Manager) (bl : List (List ℕ)) (b : Bool) (r : Sent)
      → 0 < total bl
      → Delivered m bl b r
      → length r.manager.channel.free_chunks < length m.channel.free_chunks
  used-lt m bl b r h d = omega (
    arith,
    ap length d.drawn,
    length-append r.manager.channel.free_chunks (reverse d.chunks),
    length-reverse d.chunks,
    ap length d.places,
    length-map r.posted place,
    length-map d.chunks identity,
    posted-pos r.posted (omega (arith, ap length d.content_sent, length-message bl, h)),
  )
    where
      posted-pos : (ws : List SendWr) → 0 < length (payload ws) → 0 < length ws
      posted-pos [] k = absurd (omega arith)
      posted-pos (w ∷ ws) k = omega arith

  Step-shrinks :
      (e : Event) (s t : State) (st : Step takes fuel e s t)
      → StepSends takes fuel e s t st
      → length t.manager.channel.free_chunks + sends (e ∷ []) ≤ length s.manager.channel.free_chunks
  Step-shrinks _ s _ (accept bl r e k) v = omega (
    arith,
    used-lt s.manager bl (takes r.posted) r v.not_empty (Step-Delivered s.manager bl r v e),
  )
  Step-shrinks _ s _ (refuse bl r front back e k split some_left) v = omega (
    arith,
    used-lt s.manager bl (takes r.posted) r v.not_empty (Step-Delivered s.manager bl r v e),
  )
  Step-shrinks _ s _ (handle before after rest done todo h e b b' k f) v = omega (
    arith,
    ap (λ (m : Manager). length m.channel.free_chunks)
        (Step-returned before after rest s.manager h (map (λ w. w.wr_id) done) b b' k f),
  )

  sends-cons : (e : Event) (es : List Event) → sends (e ∷ es) ≡ sends (e ∷ []) + sends es
  sends-cons (taken bl) es = omega arith
  sends-cons (refused bl n) es = omega arith
  sends-cons handled es = omega arith

  -- However many completions come back in between, a run of messages that each have at least one
  -- byte and, when they are sent, find the chunks that they need (Sends) has no more of them, taken
  -- or refused, than the receive pool had chunks at its start, since nothing that the handler
  -- returns is ever drawn again.
  pub Run-sends :
      (es : List Event) (s t : State) (run : Run takes fuel es s t)
      → Sends takes fuel es s t run
      → length t.manager.channel.free_chunks + sends es ≤ length s.manager.channel.free_chunks
  Run-sends _ s _ stop h = omega arith
  Run-sends _ s u (next {e} {es} {t = t} st r) h =
      omega (arith, Step-shrinks e s t st h.0, Run-sends es t u r h.1, sends-cons e es)
