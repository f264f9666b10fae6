-- ===== src/Completion/Ack.antt =====
-- The acknowledgement of completion events.
use workd.Prelude.{ℕ, suc, ◌+◌, ◌%◌, ◌<◌, ◌≡◌, refl, Bool, true, false, List, [], ◌∷◌, arith}
use workd.Completion.{max_ack_event, Channel, init_channel, get_cq_event}

-- The calls of `get_cq_event` in turn.
pub get_all : Channel → List Bool → Channel
get_all ch [] = ch
get_all ch (b ∷ bs) = get_all (get_cq_event b ch).1 bs

abbrev pub count : List Bool → ℕ
count [] = 0
count (true ∷ bs) = suc (count bs)
count (false ∷ bs) = count bs

-- The counter stays below the limit, and what is acknowledged comes in whole batches.
pub record IsValid (ch : Channel) : Type 0 where
  pub below : ch.cq_events_that_need_ack < max_ack_event
  pub batches : ch.acked % max_ack_event ≡ 0

get_all_lem :
    (ch : Channel) (bs : List Bool)
    → IsValid ch
    → IsValid (get_all ch bs)
      × ((get_all ch bs).acked + (get_all ch bs).cq_events_that_need_ack
          ≡ ch.acked + ch.cq_events_that_need_ack + count bs)
unfolding get_all get_cq_event
get_all_lem ch [] v = (v, omega arith)
get_all_lem ch (false ∷ bs) v = get_all_lem ch bs v
get_all_lem ch (true ∷ bs) v = ground (arith, get_all_lem (get_cq_event true ch).1 bs)

-- Whatever mix of events and empty-handed calls a fresh channel sees, every event is counted
-- once, as acknowledged or as still to acknowledge; fewer than 128 wait, and the acknowledged
-- ones are a multiple of 128.
pub get_all_counts :
    (bs : List Bool)
    → let ch = get_all init_channel bs in
      (ch.acked + ch.cq_events_that_need_ack ≡ count bs)
      × (ch.cq_events_that_need_ack < max_ack_event)
      × (ch.acked % max_ack_event ≡ 0)
unfolding init_channel
get_all_counts bs =
    omega
      (arith, get_all_lem init_channel bs (record { below = omega arith; batches = omega arith }))

pub get_cq_event-there : (ch : Channel) → (get_cq_event true ch).0 ≡ true
unfolding get_cq_event
get_cq_event-there ch = ground arith

pub get_cq_event-none : (ch : Channel) → get_cq_event false ch ≡ (false, ch)
unfolding get_cq_event
get_cq_event-none ch = refl
