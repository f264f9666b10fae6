-- ===== src/Debug/Door/Heard.antt =====
-- What `hear` stores.
use workd.Prelude.{ℕ, ◌+◌, ◌/◌, ◌≡◌, ap, ◌∙◌, some, List, ◌∷◌, ◌++◌, length, All, arith}
use workd.Prelude.Outcome.{Outcome, ok, ◌>>=◌}
use workd.Debug.Verbs.{Wc, Poll, Queues}
use workd.Debug.Verbs.Laws.{idle, rdma_query_cq-some_received}
use workd.Debug.Slices.{Region, start_remote, read_entries}
use workd.Debug.Slices.Laws.{Fits, body, length-body, read_entries-body}
use workd.Debug.Door.{Door, World, store_remotes, hear}

-- The connection carries these bytes into the first receive buffer, whose next byte is still 0,
-- and completes the receive with their number.
pub record Carries (w : World) (got : Wc) (sent : List ℕ) : Type 0 where
  pub rest : List ℕ
  pub arrived : w.arrived ≡ sent ++ (0 ∷ rest)
  pub counted : got.byte_len ≡ length sent

-- The session that has heard of these regions.
abbrev pub heard : Door → List Region → List Poll → Door
heard d rs polls = record d {
  remotes = rs;
  buffers = record d.buffers { recv_index = d.buffers.recv_index + 1 };
  queues = record d.queues { recv_cq = polls };
}

store_remotes_lem :
    (w : World) (d : Door) (p : ℕ) (c : Wc) (cs : List Wc) (rs : List Region) (rest : List ℕ)
    → All Fits rs
    → length w.tmp ≡ 26
    → ((i : ℕ) → length (w.new_remotes i) ≡ i)
    → w.arrived ≡ body rs ++ (0 ∷ rest)
    → c.byte_len ≡ length (body rs)
    → store_remotes w (some p) d (c ∷ cs)
      ≡ ok (record d {
        remotes = rs;
        buffers = record d.buffers { recv_index = d.buffers.recv_index + 1 };
      })
unfolding store_remotes start_remote
store_remotes_lem w d p c cs rs rest fit room sized there counted =
    ap (λ t. stored (read_entries w.tmp (w.new_remotes (c.byte_len / 25)) t)) there
    ∙ ap stored (
        read_entries-body rs (w.new_remotes (c.byte_len / 25)) w.tmp rest fit
          (omega (arith, sized (c.byte_len / 25), counted, length-body rs fit))
          (omega (arith, room)))
  where
    stored : Outcome (List Region) → Outcome Door
    stored o =
        let read : Outcome (ℕ × List Region) = o >>= λ l. ok (d.buffers.recv_index + 1, l) in
        read >>= λ x.
        ok (record d { remotes = x.1; buffers = record d.buffers { recv_index = x.0 } })

pub hear_lem :
    (w : World) (d : Door) (p k : ℕ) (c : Wc) (cs : List Wc) (polls : List Poll) (rs : List Region)
    (rest : List ℕ)
    → d.queues.recv_cq ≡ idle k (some (c ∷ cs) ∷ polls)
    → d.buffers.rbuf ≡ some p
    → All Fits rs
    → length w.tmp ≡ 26
    → ((i : ℕ) → length (w.new_remotes i) ≡ i)
    → w.arrived ≡ body rs ++ (0 ∷ rest)
    → c.byte_len ≡ length (body rs)
    → hear w d ≡ ok (heard d rs polls)
unfolding hear
hear_lem w d p k c cs polls rs rest came has fit room sized there counted =
    ap (λ o. o >>= λ x. store_remotes w d.buffers.rbuf (record d { queues = x.2 }) x.1)
      (rdma_query_cq-some_received k c cs d.queues polls came).1
    ∙ ap (λ o. store_remotes w o (record d { queues = after }) (c ∷ cs)) has
    ∙ store_remotes_lem w (record d { queues = after }) p c cs rs rest fit room sized there counted
  where
    after : Queues
    after = record d.queues { recv_cq = polls }
