-- ===== src/Debug/Programs/Server/Stuck.antt =====
-- Why server of debug/xx.cpp waits for ever.
use workd.Prelude.{ℕ, ◌+◌, ◌*◌, ◌^◌, ◌<◌, true, ◌≡◌, ap, ◌∙◌, Option, List, [], arith}
use workd.Prelude.Int.{ℤ}
use workd.Prelude.Outcome.{Outcome, ok, spent, ◌>>=◌}
use workd.Debug.HugePages.{huge_page_size}
use workd.Debug.Buffers.Registering.{gap_at}
use workd.Debug.Setup.{Machine, Prepared}
use workd.Debug.Devices.{Listed, get_device}
use workd.Debug.Door.{Door, World, session, accept}
use workd.Debug.Door.Linked.{CanOpen}
use workd.Debug.Door.Met.{Met}
use workd.Debug.Programs.Transfer.Stuck.{receive_stuck}
use workd.Debug.Programs.Client.{ethernet, client_params, int_product}
use workd.Debug.Programs.Client.Laws.{int_product_lem}
use workd.Debug.Programs.Server.{Ending, verdict, serve, server}

-- The server of xx.cpp never ends once its session is open: where there is an Ethernet device, the
-- session opens towards its peer, `size` times `iter` is at least 1 and fits `int`, and malloc gives
-- memory for the bytes, then whatever the peer sends,
-- whatever the receive buffers hold and however often it reads, no number of rounds is enough.
pub server_stuck :
    {w v : World} {d e : Door} (can : CanOpen w d) (peer : CanOpen v e) (q : Prepared)
    (machine : Machine) (devices : Option (List Listed)) (name : List ℕ) (sockfd : ℤ) (x : Ending)
    (size iter fuel : ℕ) (rbuf : List ℕ) (c : Door)
    → get_device devices ethernet ≡ ok name
    → Met can peer q (accept w machine sockfd (client_params size iter name) c)
    → 0 < size * iter
    → size * iter < 2 ^ 31
    → server w machine devices sockfd x true size iter fuel rbuf c ≡ spent
unfolding server serve verdict
server_stuck {w} can peer q machine devices name sockfd x size iter fuel rbuf c dev met some_left
      int =
    let from_open : Door → Outcome ℤ =
      λ d'. int_product size iter >>= λ b. serve x true b fuel rbuf d' d'.buffers.send_mem in
    let d = met.open_to.after in
    let m = gap_at can.key (can.sbase + huge_page_size) in
    ap (λ o. o >>= λ n. accept w machine sockfd (client_params size iter n) c >>= from_open) dev
    ∙ ap (λ o. o >>= from_open) met.open_to.opens
    ∙ ap (λ o. o >>= λ b. serve x true b fuel rbuf d d.buffers.send_mem)
        (int_product_lem size iter int)
    ∙ ap (serve x true (size * iter) fuel rbuf d) met.sends.0
    ∙ ap (λ o. o >>= λ r. verdict x d (size * iter) r.0)
        (receive_stuck (size * iter) fuel (session d m rbuf) []
          (omega (arith, met.reads.0, met.reads.1)) some_left)
