-- ===== src/Debug/Door/Met.antt =====
-- The opening of two sessions as a whole: rdma_portal::accept and the constructor for a client.
use workd.Prelude.{ℕ, ◌+◌, ◌≡◌, ◌≢◌, refl, ap, ◌∙◌, some, ◌++◌, map, length}
use workd.Prelude.Int.{ℤ}
use workd.Prelude.Outcome.{Outcome, ◌>>=◌}
use workd.Debug.Verbs.{InitParams, socket_params}
use workd.Debug.Buffers.Posting.{recv_request, turns}
use workd.Debug.Buffers.Registering.{gap_at, own_buffers}
use workd.Debug.HugePages.{huge_page_size}
use workd.Debug.Exchange.{rts_attr}
use workd.Debug.Exchange.Laws.{text}
use workd.Debug.Exchange.Paired.{Ends, Takes}
use workd.Debug.Setup.{Machine, Prepared, connect_params}
use workd.Debug.Setup.Linked.{Side, linked, create_context-linked}
use workd.Debug.Door.{
  Door, World, slice, region, start_rw, set_up, init, with_context, opened, accept, connect,
}
use workd.Debug.Door.Announced.{own_slices}
use workd.Debug.Door.Heard.{Carries}
use workd.Debug.Door.Paired.{on_wire, Opened}
use workd.Debug.Door.Linked.{CanOpen, remaining, ready, init-Opened}

-- A session after its opening towards `q`: it knows the slices of the peer.
pub record Met {w : World} {d : Door} (can : CanOpen w d) {v : World} {e : Door}
    (peer : CanOpen v e) (q : Prepared) (o : Outcome Door) : Type 0 where
  pub open_to :
      Opened (ready can) (remaining can) can.key can.base (own_slices peer.key peer.base) o
  pub context :
      (open_to.after.info.addr ≡ q.my_info.addr) × (open_to.after.info.rkey ≡ q.my_info.rkey)
  pub slices :
      (open_to.after.remotes ≡ map region (own_slices peer.key peer.base))
      × (open_to.after.buffers.slices ≡ 512)
      × (open_to.after.rdma_gap ≡ slice)
      × (open_to.after.rdma_index ≡ 0)
  pub reads : (open_to.after.buffers.recv_nums ≡ 1024) × (open_to.after.buffers.recv_index ≡ 1)
  pub sends :
      (open_to.after.buffers.send_mem ≡ some (gap_at can.key (can.sbase + huge_page_size)))
      × (length open_to.after.sbuf_mem ≡ 32768)
  pub receives :
      (length (own_buffers can.key can.rbase) ≡ 1024)
      × (open_to.after.rq
          ≡ d.rq ++ map recv_request (turns (own_buffers can.key can.rbase) 0 16000))

met :
    {w : World} {d : Door} (can : CanOpen w d) {v : World} {e : Door} (peer : CanOpen v e)
    (q : Prepared) (o : Outcome Door) {i : Outcome Door}
    → o ≡ i
    → d.info.addr ≡ q.my_info.addr
    → d.info.rkey ≡ q.my_info.rkey
    → ((s : Opened (ready can) (remaining can) can.key can.base (own_slices peer.key peer.base) i)
        × (length (own_buffers can.key can.rbase) ≡ 1024)
        × (s.after.rq ≡ d.rq ++ map recv_request (turns (own_buffers can.key can.rbase) 0 16000)))
    → Met can peer q o
met can peer q o e addr rkey (s, count, posted) = record {
  open_to = record {
    after = s.after;
    opens = e ∙ s.opens;
    own = s.own;
    tiles = s.tiles;
    count = s.count;
    knows = s.knows;
    kept = s.kept;
    told = s.told;
    sent_one = s.sent_one;
    waits = s.waits;
    buffer = s.buffer;
    indexed = s.indexed;
    sliced = s.sliced;
  };
  context = (ap (λ i. i.addr) s.told ∙ addr, ap (λ i. i.rkey) s.told ∙ rkey);
  slices = (s.knows, s.sliced.0, s.sliced.1, s.sliced.2);
  reads = s.indexed;
  sends = (s.buffer.0, s.buffer.1 ∙ can.fresh_room);
  receives = (count, posted);
}

-- The two sides: what stands in front of the exchange, what it is answered, and the calls that the
-- devices take.
module _ (cm sm : Machine) (cparams sparams : InitParams) (sockfd : ℤ) (cp sp : Prepared) where
  abbrev pub client_params : InitParams
  client_params = socket_params cparams

  abbrev pub server_params : InitParams
  server_params = socket_params (record sparams { sockfd = sockfd })

  -- The members once there is a context.
  abbrev pub accepted : Door → Door
  accepted d = with_context d (linked sm server_params sp cp)

  abbrev pub connected : Door → Door
  connected d = with_context d (linked cm client_params cp sp)

  -- A server that accepts and a client that connects meet: if each side comes as far as the
  -- exchange and it goes through, as in `create_context` on both sides, with devices that take the
  -- two calls that move a queue pair, and `init` has what it needs on either side (CanOpen), the
  -- member `flag` of the client is not 1, and the connection carries what each session sends last
  -- into the other's first receive buffer, then `accept` and the client's constructor both return.
  -- Each session has the key and the address of the other's context, knows the other's 512 slices,
  -- in their order, with the gap of their length and the first of them to write to next, has a send
  -- buffer of 32768 bytes, and has posted 16000 receives, for its 1024 receive buffers in turn, of
  -- which it reads the second next; the queue pairs are set up for each other.
  pub accept-connect :
      {wa wb : World} (a b : Door) (flag : ℕ) (ca : CanOpen wa (accepted a))
      (cb : CanOpen wb (connected b))
      → Side cm client_params cp (text sp.my_info)
      → Side sm server_params sp (text cp.my_info)
      → Takes cm.takes cm.qp (connect_params client_params cp) sp.my_info
      → Takes sm.takes sm.qp (connect_params server_params sp) cp.my_info
      → flag ≢ 1
      → Carries wb cb.got (on_wire (set_up wa (accepted a) >>= start_rw wa))
      → Carries wa ca.got (on_wire (init wb flag (connected b)))
      → Met ca cb cp (accept wa sm sockfd sparams a)
        × Met cb ca sp (connect wb cm flag cparams b)
        × Ends
            (rts_attr (connect_params client_params cp) sp.my_info)
            (rts_attr (connect_params server_params sp) cp.my_info)
            cp.my_info
            sp.my_info
  unfolding accept connect opened with_context
  accept-connect {wa} {wb} a b flag ca cb c s tc ts other to_client to_server =
      let (dials, answers, ends) =
        create_context-linked cm sm client_params server_params cp sp c s tc ts in
      let (opens_a, opens_b) = init-Opened ca cb flag other to_client to_server in
      (
        met ca cb cp (accept wa sm sockfd sparams a) (ap (λ o. o >>= opened wa 1 a) answers) refl
            refl opens_a,
        met cb ca sp (connect wb cm flag cparams b) (ap (λ o. o >>= opened wb flag b) dials) refl
            refl opens_b,
        ends,
      )
