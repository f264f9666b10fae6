-- ===== src/Examples/Socket.antt =====
-- The theorems about sockets and completions at concrete inputs.
use workd.Prelude.{
  ℕ, ◌+◌, ◌<◌, ◌%◌, ◌≡◌, refl, true, false, Bool, List, [], ◌∷◌, ◌++◌, All, arith, length,
}
use workd.Prelude.Outcome.{ok, fault}
use workd.Completion.{max_ack_event, Channel, init_channel, get_cq_event, Poll, got, failed}
use workd.Completion.Ack.{get_all, get_all_counts}
use workd.Completion.TxEvent.{handle_tx_event, with_returned, handle_tx_event_lem}
use workd.Socket.Send.{total, SendWr, Sent, send}
use workd.Socket.Send.Deliver.{CanSend, Delivered, send-Delivered}
use workd.Socket.Send.Edges.{send_short, send_nothing}
use workd.Socket.Recv.{Reader, read, read_buffers}
use workd.Socket.Recv.Bounds.{IsBounded, spins, drained, read_bounds}
use workd.Socket.Recv.Collect.{read_collects}
use workd.Socket.Recv.Again.{stores, sizes, read_buffers_again}
use workd.Examples.{first, second, wc, manager, first-IsValid, second-IsValid, chunks-Ready}

abbrev pub takes : List SendWr → Bool
takes ws = true

abbrev pub message : List (List ℕ)
message = (1 ∷ 2 ∷ 3 ∷ []) ∷ (4 ∷ 5 ∷ []) ∷ []

abbrev work : List Poll
work = got (wc ∷ []) ∷ failed ∷ []

pub message-CanSend : CanSend 9 manager message
unfolding total
message-CanSend = record {
  sized = omega arith;
  ready = chunks-Ready;
  not_empty = omega arith;
  countable = omega arith;
  buffers = ((omega arith, omega arith), ((omega arith, omega arith), tt));
  fits = omega arith;
}

send-Delivered_example :
    (s : Sent) × (send takes 9 manager message ≡ ok s)
    × Delivered manager message (takes s.posted) s
send-Delivered_example = send-Delivered takes 9 manager message message-CanSend

send_short_example : send takes 9 manager ((1 ∷ 2 ∷ 3 ∷ 4 ∷ 5 ∷ 6 ∷ 7 ∷ 8 ∷ 9 ∷ []) ∷ []) ≡ fault
unfolding total
send_short_example =
    send_short takes 9 manager ((1 ∷ 2 ∷ 3 ∷ 4 ∷ 5 ∷ 6 ∷ 7 ∷ 8 ∷ 9 ∷ []) ∷ []) (omega arith)
      (omega arith) (omega arith) (omega arith)

send_nothing_example :
    (s : Sent) × (send takes 9 manager [] ≡ ok s)
    × (s.manager ≡ manager)
    × (length s.posted ≡ 2)
    × All (λ w. w.length ≡ 0) s.posted
send_nothing_example = send_nothing takes 9 manager (omega arith) chunks-Ready

read_bounds_example :
    (ch' : Channel) × (r : Reader) × (read
        (spins 2 [])
        (drained work work [])
        init_channel
        (second ∷ [])
        6
      ≡ ok (ch', r))
    × IsBounded 6 r
read_bounds_example =
    read_bounds 2 [] work work [] init_channel (second ∷ []) 6 (((refl, first-IsValid), tt), tt)
      (((refl, first-IsValid), tt), tt) (second-IsValid, tt)

read_collects_example :
    read (spins 2 []) (drained work [] []) init_channel [] 6
    ≡ ok (
      (get_cq_event true init_channel).1,
      record { buf = 1 ∷ 2 ∷ 3 ∷ []; count = 3; rx_buffers = []; rearms = 1 },
    )
read_collects_example =
    read_collects 2 [] work [] [] init_channel 6
      (((refl, first-IsValid, refl, omega arith), tt), tt) tt (omega arith)

read_buffers_again_example :
    let (bytes, n, cs') = read_buffers (first ∷ second ∷ []) 9 in
    (bytes ≡ stores (first ∷ second ∷ []))
    × (n ≡ sizes (first ∷ second ∷ []))
    × (read_buffers cs' 9 ≡ (stores (first ∷ second ∷ []), 8, first ∷ second ∷ []))
read_buffers_again_example =
    read_buffers_again (first ∷ second ∷ []) 9 ((first-IsValid, refl), ((second-IsValid, refl), tt))
      (omega arith)

get_all_counts_example :
    let ch = get_all init_channel (true ∷ false ∷ true ∷ []) in
    (ch.acked + ch.cq_events_that_need_ack ≡ 2)
    × (ch.cq_events_that_need_ack < max_ack_event)
    × (ch.acked % max_ack_event ≡ 0)
get_all_counts_example = get_all_counts (true ∷ false ∷ true ∷ [])

handle_tx_event_lem_example :
    handle_tx_event true (work ++ (got [] ∷ (work ++ (got [] ∷ [])))) manager
    ≡ ok (record { manager = with_returned manager (first ∷ first ∷ []); rearms = 1 })
handle_tx_event_lem_example =
    handle_tx_event_lem work work [] manager ((refl, tt), tt) ((refl, tt), tt)
