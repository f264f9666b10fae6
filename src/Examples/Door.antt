-- ===== src/Examples/Door.antt =====
-- Two sessions that open towards each other, and what the programs then do.
use workd.Prelude.{
  ℕ, ◌*◌, min, ◌≡◌, refl, sym, ap, ◌∙◌, Option, some, true, List, [], ◌∷◌, ◌++◌, map, length,
  replicate, arith,
}
use workd.Prelude.Outcome.{ok, spent, ◌>>=◌}
use workd.Debug.Verbs.{Wc, socket_params}
use workd.Debug.Verbs.Laws.{idle}
use workd.Debug.HugePages.{real_size}
use workd.Debug.Slices.Laws.{body}
use workd.Debug.Door.{
  Door, World, session, rwbuf_size, region, start_rw, set_up, init, with_context, accept, connect,
}
use workd.Debug.Door.Met.{accepted, connected, Met, accept-connect}
use workd.Debug.Exchange.{rts_attr}
use workd.Debug.Exchange.Paired.{Ends}
use workd.Debug.Setup.{Connected, connect_params}
use workd.Debug.Programs.Client.{client_params, client}
use workd.Debug.Programs.Client.Laws.{client-check}
use workd.Debug.Programs.Server.{server}
use workd.Debug.Programs.Server.Stuck.{server_stuck}
use workd.Debug.Programs.Transfer.{Sending}
use workd.Debug.Programs.Transfer.Sent.{acks, join}
use workd.Debug.Programs.Pattern.{check}
use workd.Prelude.Int.{pos}
use workd.Debug.Door.Announced.{own_slices}
use workd.Debug.Door.Heard.{Carries}
use workd.Debug.Door.Paired.{on_wire}
use workd.Debug.Door.Linked.{CanOpen, server_text, client_text, length-server_text}
use workd.Debug.Session.{Session}
use workd.Examples.Programs
use workd.Examples.Programs.{send_mem, wc, acked, letters, takes, key, reg}
use workd.Examples.Setup.{client_info, server_info, repeat, length-repeat, unset, length-unset}
use workd.Examples.Sides.{
  device, params, devices, client_machine, server_machine, prepared, client-Side, server-Side,
  has_device, ending,
}

-- Memory of different sizes lies at different addresses.
abbrev mmap : ℕ → Option ℕ
mmap n = some (min (n * 8) 10000000000)

abbrev world : List ℕ → World
world arrived = record {
  supply = record { reg = reg; mmap = mmap; malloc = mmap; has_array = true };
  takes = takes;
  takes_recv = takes;
  refused = 0;
  has_rw = true;
  fresh = repeat 32768;
  array = repeat 12801;
  tmp = repeat 26;
  new_remotes = unset;
  unset_len = 0;
  arrived = arrived;
}

abbrev got : Wc
got = record { wr_id = 666; byte_len = 12800; success = true }

abbrev door : Door
door = record Programs.door {
  queues = record {
    send_cq = idle 2 (some (wc ∷ []) ∷ acks acked []);
    recv_cq = idle 1 (some (got ∷ []) ∷ []);
  };
}

can : (c : Connected) (arrived : List ℕ) → CanOpen (world arrived) (with_context door c)
unfolding with_context
can c arrived = record {
  key = key;
  rbase = min (real_size (32768 * 1024) * 8) 10000000000;
  sbase = min (real_size 32768 * 8) 10000000000;
  base = min (real_size rwbuf_size * 8) 10000000000;
  mapped_recv = refl;
  mapped_send = refl;
  mapped_slices = refl;
  registers = λ a l. refl;
  keys_small = λ a l. omega arith;
  addresses_small = omega arith;
  has_array = refl;
  has_rw = refl;
  capacity = 10000;
  takes_all = λ q r h. refl;
  free = omega arith;
  takes_recv_all = λ q r. refl;
  fresh_room = length-repeat 32768;
  array_room = length-repeat 12801;
  tmp_room = length-repeat 26;
  sized = length-unset;
  n = 2;
  c = wc;
  cs = [];
  send_polls = acks acked [];
  completes = refl;
  k = 1;
  got = got;
  gots = [];
  recv_polls = [];
  received = refl;
}

-- What both of them send.
text : List ℕ
text = body (map region (own_slices key (min (real_size rwbuf_size * 8) 10000000000)))

-- The world of either side, in which the other's text has come.
abbrev told : World
told = world (text ++ (0 ∷ []))

-- The two sessions with their contexts.
abbrev accepting : Door
accepting =
    accepted client_machine server_machine params params (pos 4) (prepared client_info)
      (prepared server_info) door

abbrev connecting : Door
connecting =
    connected client_machine server_machine params params (pos 4) (prepared client_info)
      (prepared server_info) door

accepting-CanOpen : CanOpen told accepting
accepting-CanOpen = can _ (text ++ (0 ∷ []))

connecting-CanOpen : CanOpen told connecting
connecting-CanOpen = can _ (text ++ (0 ∷ []))

server_sends : on_wire (set_up told accepting >>= start_rw told) ≡ text
unfolding text can accepting-CanOpen
server_sends = server_text accepting-CanOpen

length-text : length text ≡ 12800
unfolding text can accepting-CanOpen
length-text = length-server_text accepting-CanOpen

to_client : Carries told got (on_wire (set_up told accepting >>= start_rw told))
to_client = record {
  rest = [];
  arrived = ap (λ t. t ++ (0 ∷ [])) (sym server_sends);
  counted = sym (ap length server_sends ∙ length-text);
}

client_sends : on_wire (init told 0 connecting) ≡ text
unfolding text can accepting-CanOpen connecting-CanOpen
client_sends = client_text accepting-CanOpen connecting-CanOpen 0 (λ e. cc) to_client

to_server : Carries told got (on_wire (init told 0 connecting))
to_server = record {
  rest = [];
  arrived = ap (λ t. t ++ (0 ∷ [])) (sym client_sends);
  counted = sym (ap length client_sends ∙ length-text);
}

accept-connect_example :
    Met accepting-CanOpen connecting-CanOpen
      (prepared client_info)
      (accept told server_machine (pos 4) params door)
    × Met connecting-CanOpen accepting-CanOpen
        (prepared server_info)
        (connect told client_machine 0 params door)
    × Ends
        (rts_attr (connect_params (socket_params params) (prepared client_info)) server_info)
        (rts_attr
          (connect_params (socket_params (record params { sockfd = pos 4 })) (prepared server_info))
          client_info)
        client_info
        server_info
unfolding can accepting-CanOpen connecting-CanOpen
accept-connect_example =
    accept-connect client_machine server_machine params params (pos 4) (prepared client_info)
      (prepared server_info) door door 0 accepting-CanOpen connecting-CanOpen client-Side
      server-Side (refl, refl) (refl, refl) (λ e. cc) to_client to_server

-- That they meet, for what they do then.
client_meets :
    Met connecting-CanOpen accepting-CanOpen
      (prepared server_info)
      (connect told client_machine 0 (client_params 4 3 device) door)
unfolding can accepting-CanOpen connecting-CanOpen client_params
client_meets =
    (accept-connect client_machine server_machine params params (pos 4) (prepared client_info)
      (prepared server_info) door door 0 accepting-CanOpen connecting-CanOpen client-Side
      server-Side (refl, refl) (refl, refl) (λ e. cc) to_client to_server).1

server_meets :
    Met accepting-CanOpen connecting-CanOpen
      (prepared client_info)
      (accept told server_machine (pos 4) (client_params 4 3 device) door)
unfolding can accepting-CanOpen connecting-CanOpen client_params
server_meets =
    (accept-connect client_machine server_machine params params (pos 4) (prepared client_info)
      (prepared server_info) door door 0 accepting-CanOpen connecting-CanOpen client-Side
      server-Side (refl, refl) (refl, refl) (λ e. cc) to_client to_server).0

client-check_example :
    (s : Sending) × (client told client_machine devices 0 4 3 3 (some (replicate 12 0)) door
      ≡ ok (pos 0, s))
    × (length s.wire ≡ 3)
    × (check 12 (join s.wire) ≡ ok true)
unfolding connecting-CanOpen can
client-check_example =
    client-check connecting-CanOpen accepting-CanOpen (prepared server_info) client_machine devices
      device 0 4 3 3 3 (replicate 12 0) acked [] door has_device client_meets (omega arith) refl
      refl (omega arith) (omega arith) refl (refl, (refl, tt)) refl (omega arith) (omega arith)

server_stuck_example :
    server told server_machine devices (pos 4) ending true 4 3 1000000 letters door ≡ spent
server_stuck_example =
    server_stuck accepting-CanOpen connecting-CanOpen (prepared client_info) server_machine devices
      device (pos 4) ending 4 3 1000000 letters door has_device server_meets (omega arith)
      (omega arith)

-- The client's session.
heard : Session
unfolding client_meets
heard = session client_meets.open_to.after send_mem letters
