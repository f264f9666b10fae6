-- ===== src/Examples/Backend.antt =====
-- The theorems about the composed backend at concrete inputs: a message of five bytes that takes
-- two chunks of four.
use mathlib.Core.List.{Perm}
use workd.Prelude.{◌+◌, ◌≤◌, ◌≡◌, refl, none, true, List, [], ◌∷◌, arith, length}
use workd.Prelude.Int.{pos}
use workd.Prelude.Outcome.{ok}
use workd.Memory.Chunk
use workd.Memory.Chunk.{Chunk}
use workd.Memory.Cluster.{get_buffers, take_loop, num_chunks, back, pop_back}
use workd.Memory.Manager.{get_tx_buffers, get_channel_buffers}
use workd.Completion.{init_channel, get_cq_event, Poll, got}
use workd.Completion.TxEvent.{with_returned, handle_tx_event_lem}
use workd.Socket.Send.{Sent, total, fill_buffer, fill, send_wr, post_send, send}
use workd.Socket.Send.Deliver.{payload}
use workd.Socket.Recv.{read}
use workd.Socket.Recv.Bounds.{spins, drained}
use workd.Socket.Recv.Stale.{behind, read_stale}
use workd.Backend.Run.{State, Event, taken, handled, accept, handle, Run, stop, next}
use workd.Backend.Census.{census, Run-Perm, sends, Run-sends}
use workd.Backend.Stream.{Run-spec}
use workd.Backend.Carry.{Carried, send-read}
use workd.Examples.{first, second, wc, manager, first-IsValid, second-IsValid}
use workd.Examples.Socket
use workd.Examples.Socket.{takes, message-CanSend}

-- The chunks as `send` fills them.
abbrev filled2 : Chunk
filled2 = record { buffer = 104; bytes = 4; offset = 4; lkey = 8; store = 1 ∷ 2 ∷ 3 ∷ 4 ∷ [] }

abbrev filled1 : Chunk
filled1 = record { buffer = 100; bytes = 4; offset = 1; lkey = 7; store = 5 ∷ 2 ∷ 3 ∷ 4 ∷ [] }

abbrev sent : Sent
sent = record {
  result = pos 5;
  manager = record {
    channel = record { chunk_size = 4; free_chunks = [] };
    rdma = none;
    send = record { chunk_size = 4; free_chunks = [] };
  };
  bl = [];
  posted =
      record { wr_id = filled2; addr = 104; length = 4; lkey = 8 }
      ∷ record { wr_id = filled1; addr = 100; length = 1; lkey = 7 }
      ∷ [];
}

sending : send takes 9 manager Socket.message ≡ ok sent
unfolding send total fill_buffer fill send_wr post_send get_tx_buffers get_channel_buffers
    get_buffers take_loop num_chunks back pop_back Chunk.write Chunk.full Chunk.set_offset
sending = refl

-- The receives at the other end.
abbrev got_both : List Poll
got_both =
    got (
      record { wr_id = first; success = true; byte_len = 4 }
      ∷ record { wr_id = second; success = true; byte_len = 1 }
      ∷ [])
    ∷ []

carried : Carried sent.posted (
    record { wr_id = first; success = true; byte_len = 4 }
    ∷ record { wr_id = second; success = true; byte_len = 1 }
    ∷ [])
carried = (
  record {
    success = refl;
    posted = (first-IsValid, refl);
    fits = omega arith;
    size = refl;
    bytes = refl;
  },
  (
    record {
      success = refl;
      posted = (second-IsValid, refl);
      fits = omega arith;
      size = refl;
      bytes = refl;
    },
    tt,
  ),
)

send-read_example :
    read (spins 2 []) (drained got_both [] []) init_channel [] 6
    ≡ ok (
      (get_cq_event true init_channel).1,
      record { buf = 1 ∷ 2 ∷ 3 ∷ 4 ∷ 5 ∷ []; count = 5; rx_buffers = []; rearms = 1 },
    )
unfolding total
send-read_example =
    send-read takes 9 manager Socket.message sent 2 [] got_both [] [] init_channel 6 message-CanSend
      sending tt tt carried (omega arith)

-- The message is sent, then both requests complete.
abbrev idle : State
idle = record { manager = manager; flight = []; lost = []; wire = [] }

abbrev busy : State
busy = record { manager = sent.manager; flight = sent.posted; lost = []; wire = sent.posted }

abbrev done_polls : List Poll
done_polls =
    got (
      record { wr_id = filled2; success = true; byte_len = 4 }
      ∷ record { wr_id = filled1; success = true; byte_len = 1 }
      ∷ [])
    ∷ []

abbrev finished : State
finished = record {
  manager = with_returned sent.manager (filled2 ∷ filled1 ∷ []);
  flight = [];
  lost = [];
  wire = sent.posted;
}

abbrev events : List Event
events = taken Socket.message ∷ handled ∷ []

run : Run takes 9 events idle finished
run = next (accept Socket.message sent sending refl) (
    next
      (handle done_polls [] [] sent.posted []
        (record { manager = with_returned sent.manager (filled2 ∷ filled1 ∷ []); rearms = 1 }) refl
        ((refl, (refl, tt)), tt) tt refl
        (handle_tx_event_lem done_polls [] [] sent.manager ((refl, (refl, tt)), tt) tt))
      stop)

Run-Perm_example : Perm (census idle) (census finished)
unfolding run
Run-Perm_example = Run-Perm takes 9 events idle finished run (message-CanSend, (tt, tt))

Run-sends_example : length finished.manager.channel.free_chunks + sends takes 9 events ≤ 2
unfolding run
Run-sends_example = Run-sends takes 9 events idle finished run (message-CanSend, (tt, tt))

Run-spec_example : payload finished.wire ≡ 1 ∷ 2 ∷ 3 ∷ 4 ∷ 5 ∷ []
unfolding run
Run-spec_example = Run-spec takes 9 events idle finished run (message-CanSend, (tt, tt))

read_stale_example :
    (read (spins 2 []) (drained (got (wc ∷ []) ∷ []) [] []) init_channel [] 3
      ≡ ok (
        (get_cq_event true init_channel).1,
        record { buf = 1 ∷ 2 ∷ 3 ∷ []; count = 3; rx_buffers = behind wc 3 ∷ []; rearms = 1 },
      ))
    × (read (spins 0 []) (drained [] [] []) (get_cq_event true init_channel).1 (behind wc 3 ∷ []) 1
        ≡ ok (
          (get_cq_event true (get_cq_event true init_channel).1).1,
          record { buf = 4 ∷ []; count = 1; rx_buffers = behind wc 4 ∷ []; rearms = 1 },
        ))
read_stale_example =
    read_stale 2 0 [] [] [] [] init_channel wc 1 (refl, first-IsValid, refl, omega arith)
      (omega arith) (omega arith)
